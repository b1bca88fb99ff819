-- ===== src/Parse/Tiers.antt =====
-- src/chronicler/save/parse.py: every title gets a tier, and a key that names one wins.
use ck3_llm_chronicler.Base.{
  ℕ, String, Bool, true, false, List, [], ◌∷◌, Option, none, some, ◌≡?◌, nat_order, text_order, get,
  put, get-put, member, ◌≡◌, refl, arith, inl, inr, Bool-cases, eq_of_≡?, if◌then◌else◌, ap, ◌∙◌,
  sym, subst,
}
use ck3_llm_chronicler.Parse.Json.{Fields}
use ck3_llm_chronicler.Parse.Titles.{
  RawTitle, Raws, Memo, tier_from_key, tier_demote, tier_descending, promoted, settle, tiers_of,
  by_vassals, by_liege, below_liege, by_key, infer_known, known_parent, known_vassals,
}

-- A key that names a tier gives that tier.
abbrev pub KeyWins : Raws → ℕ → String → Type 0
KeyWins raws tid tier =
    (title : RawTitle)
    → get tid raws ≡ some title
    → (tier_from_key title.key ≡? "other") ≡ false
    → tier ≡ tier_from_key title.key

some-injective : {A : Type 0} (a b : A) → some a ≡ some b → a ≡ b
some-injective a b h = cc

differ : {a b : Bool} → a ≡ b → a ≡ true → b ≡ false → ⊥
differ e h k = cc

module _ (raws : Raws) where
  abbrev pub Sane : Memo → Type 0
  Sane memo = (k : ℕ) (tier : String) → get k memo ≡ some tier → KeyWins raws k tier

  put-Sane :
      (tid : ℕ) (v : String) (memo : Memo) → KeyWins raws tid v → Sane memo → Sane (put tid v memo)
  put-Sane tid v memo w s k tier e =
      let g : get k (put tid v memo) ≡ (if k ≡? tid then some v else get k memo) =
        get-put tid k v memo in
      elim (Bool-cases (k ≡? tid)) [
        | inl same ↦
            let eq : v ≡ tier = ground arith in
            subst (KeyWins raws k) (eq)
              (subst (λ (j : ℕ). KeyWins raws j v) (sym (eq_of_≡? k tid same)) w)
        | inr other ↦ s k tier (ground arith)
      ]

  -- A call that returns, with a sound tier and memo.
  abbrev pub Answers : ℕ → Option (String × Memo) → Type 0
  Answers tid o =
      (tier : String) × (memo : Memo) × (o ≡ some (tier, memo)) × KeyWins raws tid tier × Sane memo

  abbrev pub Infers : (ℕ → Memo → Option (String × Memo)) → Type 0
  Infers infer = (k : ℕ) (memo : Memo) → Sane memo → Answers k (infer k memo)

  -- The record's key names no tier.
  abbrev pub Unnamed : ℕ → Type 0
  Unnamed tid = (tier : String) → KeyWins raws tid tier

  module _ (infer : ℕ → Memo → Option (String × Memo)) (h : Infers infer) where
    tiers_of-Answers :
        (vs : List ℕ) (memo : Memo)
        → Sane memo
        → (tiers : List String) × (after : Memo) × (tiers_of infer vs memo ≡ some (tiers, after))
          × Sane after
    tiers_of-Answers [] memo s = ([], memo, refl, s)
    tiers_of-Answers (v ∷ vs) memo s =
        let (tier, next, e, w, n) = h v memo s in
        let (tiers, after, f, m) = tiers_of-Answers vs next n in
        (tier ∷ tiers, after, rw e (rw f refl), m)

    settle-Answers :
        (tid : ℕ) (memo : Memo) (tier : Option String)
        → Unnamed tid
        → Sane memo
        → Answers tid (settle tid memo tier)
    settle-Answers tid memo none u s =
        ("other", _, refl, u "other", put-Sane tid "other" memo (u "other") s)
    settle-Answers tid memo (some tier) u s =
        (tier, _, refl, u tier, put-Sane tid tier memo (u tier) s)

    by_vassals-Answers :
        (tid : ℕ) (raw : Fields) (memo : Memo)
        → Unnamed tid
        → Sane memo
        → Answers tid (by_vassals infer raws tid raw memo)
    by_vassals-Answers tid raw memo u s =
        let (tiers, after, e, m) = tiers_of-Answers (known_vassals raws raw) memo s in
        rw e (settle-Answers tid after (promoted tiers tier_descending) u m)

    below_liege-Answers :
        (tid : ℕ) (raw : Fields) (demoted : Option String) (memo : Memo)
        → Unnamed tid
        → Sane memo
        → Answers tid (below_liege infer raws tid raw demoted memo)
    below_liege-Answers tid raw none memo u s = by_vassals-Answers tid raw memo u s
    below_liege-Answers tid raw (some demoted) memo u s =
        (demoted, _, refl, u demoted, put-Sane tid demoted memo (u demoted) s)

    by_liege-Answers :
        (tid : ℕ) (raw : Fields) (parent : Option ℕ) (memo : Memo)
        → Unnamed tid
        → Sane memo
        → Answers tid (by_liege infer raws tid raw parent memo)
    by_liege-Answers tid raw none memo u s = by_vassals-Answers tid raw memo u s
    by_liege-Answers tid raw (some parent) memo u s =
        let (tier, next, e, w, n) = h parent memo s in
        rw e (below_liege-Answers tid raw (get tier tier_demote) next u n)

  by_key-Answers :
      (infer : ℕ → Memo → Option (String × Memo)) (tid : ℕ) (title : RawTitle) (other : Bool)
      (memo : Memo)
      → get tid raws ≡ some title
      → (tier_from_key title.key ≡? "other") ≡ other
      → Sane memo
      → ((t : RawTitle) → get tid raws ≡ some t → Unnamed tid → Infers infer)
      → Answers tid (by_key infer raws tid title other memo)
  by_key-Answers infer tid title true memo e o s h =
      let u : Unnamed tid = λ tier t g n. absurd (
        differ
          (ap (λ (x : RawTitle). tier_from_key x.key ≡? "other")
            (some-injective title t (sym e ∙ g)))
          o n) in
      by_liege-Answers infer (h title e u) tid title.raw (known_parent raws title.raw) memo u s
  by_key-Answers infer tid title false memo e o s h =
      let base = tier_from_key title.key in
      let wins : KeyWins raws tid base =
        λ t g n. ap (λ (x : RawTitle). tier_from_key x.key) (some-injective title t (sym e ∙ g)) in
      (base, _, refl, wins, put-Sane tid base memo wins s)

  pub infer_known-Answers :
      (infer : ℕ → Memo → Option (String × Memo)) (tid : ℕ) (title : Option RawTitle) (memo : Memo)
      → get tid raws ≡ title
      → Sane memo
      → ((t : RawTitle) → get tid raws ≡ some t → Unnamed tid → Infers infer)
      → Answers tid (infer_known infer raws tid title memo)
  infer_known-Answers infer tid none memo e s h =
      ("other", memo, refl, λ t g n. absurd (let no : none ≡ some t = sym e ∙ g in cc), s)
  infer_known-Answers infer tid (some title) memo e s h =
      by_key-Answers infer tid title (tier_from_key title.key ≡? "other") memo e refl s h

  pub in_flight :
      (tid : ℕ) (inflight : List ℕ)
      → ((k : ℕ) → member k inflight ≡ true → Unnamed k)
      → Unnamed tid
      → (k : ℕ) → member k (tid ∷ inflight) ≡ true
      → Unnamed k
  unfolding member
  in_flight tid inflight h u k m = elim (Bool-cases (k ≡? tid)) [
    | inl e ↦ subst Unnamed (sym (eq_of_≡? k tid e)) u
    | inr e ↦ h k (ground arith)
  ]
