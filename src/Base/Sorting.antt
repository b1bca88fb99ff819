-- ===== src/Base/Sorting.antt =====
-- Python's stable `list.sort(key=...)`.
use ck3_llm_chronicler.Base.Lists.{All, filter}
use ck3_llm_chronicler.Base.Orders.{Order, ◌≤?◌}
use ck3_llm_chronicler.Base.Tests.{if◌then◌else◌, Bool-cases}
use mathlib.Core.Bool.{Bool, true, false}
use mathlib.Core.List.{List, [], ◌∷◌, ◌++◌, Perm}
use mathlib.Core.List.Perm
use mathlib.Core.Logic.{inl, inr, ◌⊎◌}
use mathlib.Core.Path.{◌≡◌, refl, ap, sym, ◌∙◌}
use native.Mathlib.Omega.{arith}

module _ {A K : Type 0} ⦃o : Order K⦄ (key : A → K) where
  -- In front of the first item whose key is not smaller.
  unfoldable pub insert_by : A → List A → List A
  insert_by x [] = x ∷ []
  insert_by x (y ∷ ys) =
      let rest = insert_by x ys in if key x ≤? key y then x ∷ y ∷ ys else y ∷ rest

  unfoldable pub sort_by : List A → List A
  unfolding insert_by
  sort_by [] = []
  sort_by (x ∷ xs) = insert_by x (sort_by xs)

  -- What stands behind `x` has no smaller key.
  abbrev pub AllAbove : A → List A → Type 0
  AllAbove x ys = All (λ y. (key x ≤? key y) ≡ true) ys

  abbrev pub IsSorted : List A → Type 0
  IsSorted [] = Unit
  IsSorted (x ∷ xs) = AllAbove x xs × IsSorted xs

  AllAbove-trans : (x y : A) (zs : List A) → (key x ≤? key y) ≡ true → AllAbove y zs → AllAbove x zs
  AllAbove-trans x y [] h k = tt
  AllAbove-trans x y (z ∷ zs) h (p, k) =
      (o.le?_trans (key x) (key y) (key z) h p, AllAbove-trans x y zs h k)

  AllAbove-insert_by :
      (x a : A) (ys : List A)
      → (key x ≤? key a) ≡ true
      → AllAbove x ys
      → AllAbove x (insert_by a ys)
  unfolding insert_by
  AllAbove-insert_by x a [] h k = (h, tt)
  AllAbove-insert_by x a (y ∷ ys) h (p, k) = ground (arith, AllAbove-insert_by x a ys h k)

  insert_by-IsSorted : (x : A) (ys : List A) → IsSorted ys → IsSorted (insert_by x ys)
  unfolding insert_by
  insert_by-IsSorted x [] h = (tt, tt)
  insert_by-IsSorted x (y ∷ ys) (h, k) = elim (Bool-cases (key x ≤? key y)) [
    | inl le ↦ rw le ((le, AllAbove-trans x y ys le h), (h, k))
    | inr gt ↦
        rw gt
          (AllAbove-insert_by y x ys (o.le?_total (key x) (key y) gt) h, insert_by-IsSorted x ys k)
  ]

  pub sort_by-IsSorted : (xs : List A) → IsSorted (sort_by xs)
  unfolding sort_by
  sort_by-IsSorted [] = tt
  sort_by-IsSorted (x ∷ xs) = insert_by-IsSorted x (sort_by xs) (sort_by-IsSorted xs)

  -- Items with different keys may be inserted in either order.
  pub insert_by_comm :
      (x y : A) (zs : List A)
      → (key x ≤? key y) ≡ true
      → (key y ≤? key x) ≡ false
      → insert_by x (insert_by y zs) ≡ insert_by y (insert_by x zs)
  unfolding insert_by
  insert_by_comm x y [] h k = ground arith
  insert_by_comm x y (z ∷ zs) h k = ground (
    arith,
    insert_by_comm x y zs h k,
    o.le?_trans (key x) (key y) (key z),
    o.le?_trans (key y) (key z) (key x),
    o.le?_total (key x) (key z),
  )

  -- Stability: what a test keeps is sorted the same way with the rest taken out first.
  filter-AllAbove : (p : A → Bool) (x : A) (ys : List A) → AllAbove x ys → AllAbove x (filter p ys)
  filter-AllAbove p x [] h = tt
  filter-AllAbove p x (y ∷ ys) (h, k) = ground (arith, filter-AllAbove p x ys k)

  insert_by_front : (x : A) (ys : List A) → AllAbove x ys → insert_by x ys ≡ x ∷ ys
  unfolding insert_by
  insert_by_front x [] h = refl
  insert_by_front x (y ∷ ys) (h, k) = rw h

  filter-insert_by :
      (p : A → Bool) (x : A) (ys : List A)
      → IsSorted ys
      → filter p (insert_by x ys) ≡ (if p x then insert_by x (filter p ys) else filter p ys)
  unfolding insert_by
  filter-insert_by p x [] h = ground arith
  filter-insert_by p x (y ∷ ys) (h, k) = elim (Bool-cases (key x ≤? key y)) [
    | inl le ↦ ground (
      arith,
      insert_by_front x (filter p ys) (filter-AllAbove p x ys (AllAbove-trans x y ys le h)),
    )
    | inr gt ↦ ground (arith, filter-insert_by p x ys k)
  ]

  pub filter-sort_by : (p : A → Bool) (xs : List A) → filter p (sort_by xs) ≡ sort_by (filter p xs)
  unfolding sort_by
  filter-sort_by p [] = refl
  filter-sort_by p (x ∷ xs) =
      filter-insert_by p x (sort_by xs) (sort_by-IsSorted xs) ∙ ground (arith, filter-sort_by p xs)

  insert_by-perm : (x : A) (ys : List A) → Perm (insert_by x ys) (x ∷ ys)
  unfolding insert_by
  insert_by-perm x [] = Perm.refl (x ∷ [])
  insert_by-perm x (y ∷ ys) = elim (Bool-cases (key x ≤? key y)) [
    | inl le ↦ rw le (Perm.refl (x ∷ y ∷ ys))
    | inr gt ↦ rw gt (Perm.trans (Perm.cons y (insert_by-perm x ys)) (Perm.swap x y ys))
  ]

  -- Sorting loses nothing and adds nothing.
  pub sort_by-perm : (xs : List A) → Perm (sort_by xs) xs
  unfolding sort_by
  sort_by-perm [] = Perm.refl []
  sort_by-perm (x ∷ xs) = Perm.trans (insert_by-perm x (sort_by xs)) (Perm.cons x (sort_by-perm xs))

  -- The keys differ.
  abbrev pub Apart : A → A → Type 0
  Apart x y =
      ((key x ≤? key y) ≡ true) × ((key y ≤? key x) ≡ false)
      ⊎ ((key y ≤? key x) ≡ true) × ((key x ≤? key y) ≡ false)

  insert_by-Apart :
      (x y : A) (zs : List A)
      → Apart x y
      → insert_by x (insert_by y zs) ≡ insert_by y (insert_by x zs)
  insert_by-Apart x y zs (inl (h, k)) = insert_by_comm x y zs h k
  insert_by-Apart x y zs (inr (h, k)) = sym (insert_by_comm y x zs h k)

  unfoldable pub insert_all : List A → List A → List A
  insert_all [] zs = zs
  insert_all (x ∷ xs) zs = insert_by x (insert_all xs zs)

  pub sort_by-append : (xs ys : List A) → sort_by (xs ++ ys) ≡ insert_all xs (sort_by ys)
  unfolding sort_by insert_all
  sort_by-append [] ys = refl
  sort_by-append (x ∷ xs) ys = ap (insert_by x) (sort_by-append xs ys)

  insert_by-insert_all :
      (x : A) (ys zs : List A)
      → All (Apart x) ys
      → insert_by x (insert_all ys zs) ≡ insert_all ys (insert_by x zs)
  unfolding insert_all
  insert_by-insert_all x [] zs h = refl
  insert_by-insert_all x (y ∷ ys) zs (h, k) =
      insert_by-Apart x y (insert_all ys zs) h ∙ ap (insert_by y) (insert_by-insert_all x ys zs k)

  -- Two blocks whose keys differ may be inserted in either order.
  pub insert_all_comm :
      (xs ys zs : List A)
      → All (λ x. All (Apart x) ys) xs
      → insert_all xs (insert_all ys zs) ≡ insert_all ys (insert_all xs zs)
  unfolding insert_all
  insert_all_comm [] ys zs h = refl
  insert_all_comm (x ∷ xs) ys zs (h, k) =
      ap (insert_by x) (insert_all_comm xs ys zs k) ∙ insert_by-insert_all x ys (insert_all xs zs) h

module _ {A K : Type 0} ⦃o : Order K⦄ (key : A → K) (P : A → Type 0) where
  All-insert_by : (x : A) (ys : List A) → P x → All P ys → All P (insert_by key x ys)
  unfolding insert_by
  All-insert_by x [] p h = (p, tt)
  All-insert_by x (y ∷ ys) p (q, h) = elim (Bool-cases (key x ≤? key y)) [
    | inl e ↦ rw e (p, (q, h))
    | inr e ↦ rw e (q, All-insert_by x ys p h)
  ]

  -- Sorting keeps what holds of every item.
  pub All-sort_by : (xs : List A) → All P xs → All P (sort_by key xs)
  unfolding sort_by
  All-sort_by [] h = tt
  All-sort_by (x ∷ xs) (p, h) = All-insert_by x (sort_by key xs) p (All-sort_by xs h)
