-- ===== src/Holdings/Members.antt =====
-- Items of filtered lists, and the titles of a dict of titles with distinct keys.
use ck3_llm_chronicler.Base.{
  ℕ, Bool, true, false, ◌||◌, ◌&&◌, List, [], ◌∷◌, map, Option, some, ◌≡◌, ◌⊎◌, refl, sym, ap, ◌∙◌,
  arith, inl, inr, Bool-cases, Option-cases, filter, filter_map, same_option, Has, ◌≡?◌, ≡?_refl,
  eq_of_≡?, nat_order, text_order, pair_order, Dict, get, keys, member, Distinct,
}
use ck3_llm_chronicler.Snapshot.{TitleSnapshot}
use ck3_llm_chronicler.Diff.Titles.{titles_scan}
use ck3_llm_chronicler.Diff.Snapshots.Total.{member-keys-filter}

module _ {A B : Type 0} (f : A → Option B) where
  pub Has-filter_map :
      (b : B) (xs : List A) → Has b (filter_map f xs) → (a : A) × Has a xs × (f a ≡ some b)
  Has-filter_map b [] h = absurd h
  Has-filter_map b (x ∷ xs) h = elim (Option-cases (f x)) [
    | inl e ↦
        let later : Has b (filter_map f xs) = rw (e, Has) at h in
        let (a, m, g) = Has-filter_map b xs later in (a, inr m, g)
    | inr (c, e) ↦
        let found : (c ≡ b) ⊎ Has b (filter_map f xs) = rw (e, Has) at h in
        elim found [
          | inl same ↦ (x, inl refl, e ∙ ap some same)
          | inr later ↦ let (a, m, g) = Has-filter_map b xs later in (a, inr m, g)
        ]
  ]

  pub filter_map-Has :
      (a : A) (b : B) (xs : List A) → Has a xs → f a ≡ some b → Has b (filter_map f xs)
  filter_map-Has a b [] h e = absurd h
  filter_map-Has a b (x ∷ xs) (inl same) e =
      let g : f x ≡ some b = ap f same ∙ e in rw (g, Has) (inl refl)
  filter_map-Has a b (x ∷ xs) (inr later) e =
      let rest = filter_map-Has a b xs later e in
      elim (Option-cases (f x)) [ inl g ↦ rw (g, Has) rest | inr (c, g) ↦ rw (g, Has) (inr rest) ]

module _ {A : Type 0} (p : A → Bool) where
  pub Has-filter : (a : A) (xs : List A) → Has a (filter p xs) → Has a xs × (p a ≡ true)
  Has-filter a [] h = absurd h
  Has-filter a (x ∷ xs) h = elim (Bool-cases (p x)) [
    | inr e ↦
        let later : Has a (filter p xs) = rw e at h in
        let (m, t) = Has-filter a xs later in (inr m, t)
    | inl e ↦
        let found : (x ≡ a) ⊎ Has a (filter p xs) = rw e at h in
        elim found [
          | inl same ↦ (inl same, ap p (sym same) ∙ e)
          | inr later ↦ let (m, t) = Has-filter a xs later in (inr m, t)
        ]
  ]

  pub filter-Has : (a : A) (xs : List A) → Has a xs → p a ≡ true → Has a (filter p xs)
  filter-Has a [] h e = absurd h
  filter-Has a (x ∷ xs) (inl same) e = let g : p x ≡ true = ap p same ∙ e in rw g (inl same)
  filter-Has a (x ∷ xs) (inr later) e =
      let rest = filter-Has a xs later e in
      elim (Bool-cases (p x)) [ inl g ↦ rw g (inr rest) | inr g ↦ rw g rest ]

pub Has-member : (k : ℕ) (xs : List ℕ) → Has k xs → member k xs ≡ true
unfolding member
Has-member k [] h = absurd h
Has-member k (x ∷ xs) (inl same) =
    let r : (k ≡? x) ≡ true = rw same (≡?_refl k) in ground (arith, r)
Has-member k (x ∷ xs) (inr later) = ground (arith, Has-member k xs later)

pub member-Has : (k : ℕ) (xs : List ℕ) → member k xs ≡ true → Has k xs
unfolding member
member-Has k [] h = absurd cc
member-Has k (x ∷ xs) h = elim (Bool-cases (k ≡? x)) [
  | inl e ↦ inl (sym (eq_of_≡? k x e))
  | inr e ↦ inr (member-Has k xs (ground (arith, h, e)))
]

abbrev pub values : Dict ℕ TitleSnapshot → List TitleSnapshot
values titles = map (λ e. e.1) titles

abbrev pub holds : ℕ → TitleSnapshot → Bool
holds character_id t = same_option t.holder_id (some character_id)

pub get-Has :
    (tid : ℕ) (t : TitleSnapshot) (titles : Dict ℕ TitleSnapshot)
    → get tid titles ≡ some t
    → Has t (values titles)
unfolding get
get-Has tid t [] h = absurd cc
get-Has tid t ((k, u) ∷ titles) h = elim (Bool-cases (tid ≡? k)) [
  | inl e ↦ inl (let same : u ≡ t = ground (arith, h, e) in same)
  | inr e ↦ inr (get-Has tid t titles (ground (arith, h, e)))
]

get-key :
    (tid : ℕ) (t : TitleSnapshot) (titles : Dict ℕ TitleSnapshot)
    → get tid titles ≡ some t
    → member tid (keys titles) ≡ true
unfolding get member
get-key tid t [] h = absurd cc
get-key tid t ((k, u) ∷ titles) h = elim (Bool-cases (tid ≡? k)) [
  | inl e ↦ ground (arith, e)
  | inr e ↦ ground (arith, e, get-key tid t titles (ground (arith, h, e)))
]

scan-absent :
    (cid k : ℕ) (titles : Dict ℕ TitleSnapshot)
    → member k (keys titles) ≡ false
    → member k (titles_scan cid titles) ≡ false
unfolding titles_scan
scan-absent cid k titles h = elim (Bool-cases (member k (titles_scan cid titles))) [
  | inr e ↦ e
  | inl e ↦
      let there = member-keys-filter (λ e. same_option e.1.holder_id (some cid)) k titles e in
      let bad : true ≡ false = sym there ∙ h in absurd cc
]

scan-cons :
    (cid tid k : ℕ) (u : TitleSnapshot) (titles : Dict ℕ TitleSnapshot)
    → member tid (titles_scan cid ((k, u) ∷ titles))
      ≡ ((holds cid u && (tid ≡? k)) || member tid (titles_scan cid titles))
unfolding titles_scan member
scan-cons cid tid k u titles = elim (Bool-cases (holds cid u)) [
  | inl e ↦ rw e refl
  | inr e ↦ rw e refl
]

-- A title that is found under an id of the scan is held.
pub found-holds :
    (cid tid : ℕ) (t : TitleSnapshot) (titles : Dict ℕ TitleSnapshot)
    → Distinct (keys titles)
    → member tid (titles_scan cid titles) ≡ true
    → get tid titles ≡ some t
    → holds cid t ≡ true
unfolding get
found-holds cid tid t [] d m h = absurd cc
found-holds cid tid t ((k, u) ∷ titles) (fresh, d) m h =
    let split = sym (scan-cons cid tid k u titles) ∙ m in
    elim (Bool-cases (tid ≡? k)) [
      | inl e ↦
          let here : tid ≡ k = eq_of_≡? tid k e in
          let absent : member tid (titles_scan cid titles) ≡ false =
            rw here (scan-absent cid k titles fresh) in
          let same : u ≡ t = ground (arith, h, e) in
          let held : holds cid u ≡ true = ground (arith, split, absent, e) in rw (← same) held
      | inr e ↦ found-holds cid tid t titles d (ground (arith, split, e)) (ground (arith, h, e))
    ]

-- Each title of the dict is found under an id, which the scan has if the title is held.
pub value-found :
    (cid : ℕ) (u : TitleSnapshot) (titles : Dict ℕ TitleSnapshot)
    → Distinct (keys titles)
    → Has u (values titles)
    → holds cid u ≡ true
    → (tid : ℕ) × (get tid titles ≡ some u) × (member tid (titles_scan cid titles) ≡ true)
unfolding get
value-found cid u [] d h e = absurd h
value-found cid u ((k, v) ∷ titles) (fresh, d) (inl same) e =
    let r = ≡?_refl k in
    let held : holds cid v ≡ true = ap (holds cid) same ∙ e in
    (k, ground (arith, r, same), scan-cons cid k k v titles ∙ ground (arith, r, held))
value-found cid u ((k, v) ∷ titles) (fresh, d) (inr later) e =
    let (tid, g, m) = value-found cid u titles d later e in
    let other : (tid ≡? k) ≡ false = (elim (Bool-cases (tid ≡? k)) [
      | inr o ↦ o
      | inl o ↦
          let there : member k (keys titles) ≡ true =
            rw (← eq_of_≡? tid k o) (get-key tid u titles g) in
          let bad : true ≡ false = sym there ∙ fresh in absurd cc
    ]) in
    (tid, ground (arith, g, other), scan-cons cid tid k v titles ∙ ground (arith, m))
