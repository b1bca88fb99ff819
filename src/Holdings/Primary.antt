-- ===== src/Holdings/Primary.antt =====
-- The primary title is the grandest that the character holds.
use ck3_llm_chronicler.Base.{
  ℕ, true, List, [], ◌∷◌, Option, none, some, ◌≡◌, ◌⊎◌, refl, sym, inl, inr, All, Has, ◌≤?◌,
  nat_order, text_order, pair_order, Order, sort_by, sort_by-IsSorted, insert_by, IsSorted,
  Bool-cases, subst,
}
use ck3_llm_chronicler.Snapshot.{SaveSnapshot, TitleSnapshot}
use ck3_llm_chronicler.Holdings.{
  get_titles_held_by, grandeur, get_held_titles_sorted, first_of, get_primary_title_held_by,
}

module _ {A K : Type 0} ⦃o : Order K⦄ (key : A → K) (P : A → Type 0) where
  All-of-insert_by : (x : A) (ys : List A) → All P (insert_by key x ys) → P x × All P ys
  unfolding insert_by
  All-of-insert_by x [] (p, t) = (p, tt)
  All-of-insert_by x (y ∷ ys) h = elim (Bool-cases (key x ≤? key y)) [
    | inl e ↦ rw e at h
    | inr e ↦
        let (q, k) : P y × All P (insert_by key x ys) = rw e at h in
        let (p, r) = All-of-insert_by x ys k in (p, (q, r))
  ]

  All-of-sort_by : (xs : List A) → All P (sort_by key xs) → All P xs
  unfolding sort_by
  All-of-sort_by [] h = tt
  All-of-sort_by (x ∷ xs) h =
      let (p, k) = All-of-insert_by x (sort_by key xs) h in (p, All-of-sort_by xs k)

module _ {A K : Type 0} ⦃o : Order K⦄ (key : A → K) where
  Has-insert_by : (e x : A) (ys : List A) → Has e (insert_by key x ys) → (x ≡ e) ⊎ Has e ys
  unfolding insert_by
  Has-insert_by e x [] h = h
  Has-insert_by e x (y ∷ ys) h = elim (Bool-cases (key x ≤? key y)) [
    | inl le ↦ rw le at h
    | inr gt ↦
        let k : (y ≡ e) ⊎ Has e (insert_by key x ys) = rw gt at h in
        elim k [
          | inl same ↦ inr (inl same)
          | inr later ↦ elim (Has-insert_by e x ys later) [
            | inl same ↦ inl same
            | inr there ↦ inr (inr there)
          ]
        ]
  ]

  Has-sort_by : (e : A) (xs : List A) → Has e (sort_by key xs) → Has e xs
  unfolding sort_by
  Has-sort_by e [] h = h
  Has-sort_by e (x ∷ xs) h = elim (Has-insert_by e x (sort_by key xs) h) [
    | inl same ↦ inl same
    | inr later ↦ inr (Has-sort_by e xs later)
  ]

module _ {A K : Type 0} ⦃o : Order K⦄ (key : A → K) where
  nil_of_none : (xs : List A) → All (λ x. ⊥) xs → xs ≡ []
  nil_of_none [] h = refl
  nil_of_none (x ∷ xs) (h, k) = absurd h

  nil_of_sorted : (xs : List A) → sort_by key xs ≡ [] → xs ≡ []
  nil_of_sorted xs e =
      nil_of_none xs (All-of-sort_by key (λ x. ⊥) xs (subst (λ ys. All (λ x. ⊥) ys) (sym e) tt))

  head_of_sorted :
      (xs : List A) (y : A) (ys : List A)
      → sort_by key xs ≡ y ∷ ys
      → Has y xs × All (λ x. (key y ≤? key x) ≡ true) xs
  head_of_sorted xs y ys e =
      let (above, rest) = subst (λ zs. IsSorted key zs) e (sort_by-IsSorted key xs) in
      (
        Has-sort_by key y xs (subst (λ zs. Has y zs) (sym e) (inl refl)),
        All-of-sort_by key (λ x. (key y ≤? key x) ≡ true) xs
            (subst (λ zs. All (λ x. (key y ≤? key x) ≡ true) zs) (sym e)
              (o.le?_refl (key y), above)),
      )

-- `t` is among the titles, and none of them is grander, or as grand with a smaller id.
abbrev pub IsGrandest : TitleSnapshot → List TitleSnapshot → Type 0
IsGrandest t ts = Has t ts × All (λ u. (grandeur t ≤? grandeur u) ≡ true) ts

-- No title is chosen only where there is none, and a chosen one is the grandest.
abbrev pub IsChoice : List TitleSnapshot → Option TitleSnapshot → Type 0
IsChoice held none = held ≡ []
IsChoice held (some t) = IsGrandest t held

chosen-IsChoice :
    (held sorted_titles : List TitleSnapshot)
    → sort_by grandeur held ≡ sorted_titles
    → IsChoice held (first_of sorted_titles)
chosen-IsChoice held [] e = nil_of_sorted grandeur held e
chosen-IsChoice held (t ∷ ts) e = head_of_sorted grandeur held t ts e

-- Sorted by the key of the code, and chosen by it.
pub get_primary_title_held_by-IsChoice :
    (snap : SaveSnapshot) (character_id : ℕ)
    → IsSorted grandeur (get_held_titles_sorted snap character_id)
      × IsChoice
          (get_titles_held_by snap character_id)
          (get_primary_title_held_by snap character_id)
unfolding get_held_titles_sorted get_primary_title_held_by
get_primary_title_held_by-IsChoice snap character_id =
    let held = get_titles_held_by snap character_id in
    (sort_by-IsSorted grandeur held, chosen-IsChoice held (sort_by grandeur held) refl)
