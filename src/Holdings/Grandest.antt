-- ===== src/Holdings/Grandest.antt =====
-- src/chronicler/save/titles.py: the primary title, among all titles of the save.
use ck3_llm_chronicler.Base.{
  ℕ, ◌-◌, ◌≤◌, ◌<◌, String, Bool, true, false, List, [], ◌∷◌, Option, none, some, ◌≡◌, ◌⊎◌, refl,
  sym, ap, subst, ◌∙◌, arith, inl, inr, Bool-cases, if◌then◌else◌, is_empty, filter, filter_map,
  Has, All, ◌≤?◌, ◌≡?◌, nat_order, text_order, pair_order, get, get_or, keys, member, Distinct,
}
use ck3_llm_chronicler.Snapshot.{SaveSnapshot, TitleSnapshot}
use ck3_llm_chronicler.Diff.Titles.{titles_scan}
use ck3_llm_chronicler.Parse.Index.{lists}
use ck3_llm_chronicler.Parse.Holders.{IsParsed, build_title_holders-scan}
use ck3_llm_chronicler.Holdings.{
  get_titles_held_by, grandeur, primary_tier_rank, get_primary_title_held_by,
}
use ck3_llm_chronicler.Holdings.Members.{
  values, holds, Has-filter_map, filter_map-Has, Has-filter, filter-Has, Has-member, member-Has,
  get-Has, found-holds, value-found,
}
use ck3_llm_chronicler.Holdings.Primary.{IsChoice, get_primary_title_held_by-IsChoice}

-- The rank of a tier: an empire is above a kingdom, and so on down to whatever has no tier.
abbrev pub height : String → ℕ
height tier =
    if tier ≡? "barony"
    then 1
    else if tier ≡? "county"
    then 2
    else if tier ≡? "duchy"
    then 3
    else if tier ≡? "kingdom"
    then 4
    else if tier ≡? "empire"
    then 5
    else 0

-- Of a higher rank, or of the same with an id that is not greater.
abbrev pub IsAbove : TitleSnapshot → TitleSnapshot → Type 0
IsAbove t u =
    (height u.tier < height t.tier) ⊎ ((height t.tier ≡ height u.tier) × (t.title_id ≤ u.title_id))

abbrev pub titles_of : SaveSnapshot → List TitleSnapshot
titles_of snap = values snap.titles

-- Nothing, where the character holds no title of the save; or a title of the save that the character
-- holds, above every other.
abbrev pub IsPrimary : SaveSnapshot → ℕ → Option TitleSnapshot → Type 0
IsPrimary snap character_id none =
    (u : TitleSnapshot) → Has u (titles_of snap) → holds character_id u ≡ false
IsPrimary snap character_id (some t) =
    Has t (titles_of snap)
    × (holds character_id t ≡ true)
    × ((u : TitleSnapshot) → Has u (titles_of snap) → holds character_id u ≡ true → IsAbove t u)

or_zero : Option ℕ → ℕ
or_zero none = 0
or_zero (some n) = n

-- The six tests of the lookup, and what it finds.
looked_up : (b c d k e o : Bool) → Option ℕ
looked_up b c d k e o =
    if b
    then some 1
    else if c
    then some 2
    else if d
    then some 3
    else if k
    then some 4
    else if e
    then some 5
    else if o
    then some 0
    else none

climbed :
    (b c d k e o : Bool)
    → or_zero (looked_up b c d k e o)
      ≡ (if b then 1 else if c then 2 else if d then 3 else if k then 4 else if e then 5 else 0)
unfolding looked_up or_zero
climbed true c d k e o = refl
climbed false true d k e o = refl
climbed false false true k e o = refl
climbed false false false true e o = refl
climbed false false false false true o = refl
climbed false false false false false true = refl
climbed false false false false false false = refl

rank-height : (tier : String) → get_or tier 0 primary_tier_rank ≡ height tier
unfolding get looked_up or_zero
rank-height tier =
    let found : get tier primary_tier_rank
        ≡ looked_up (tier ≡? "barony") (tier ≡? "county") (tier ≡? "duchy") (tier ≡? "kingdom")
            (tier ≡? "empire") (tier ≡? "other") =
      refl in
    let default : get_or tier 0 primary_tier_rank ≡ or_zero (get tier primary_tier_rank) =
      defaulted (get tier primary_tier_rank) in
    default
    ∙ (ap or_zero found
        ∙ climbed (tier ≡? "barony") (tier ≡? "county") (tier ≡? "duchy") (tier ≡? "kingdom")
            (tier ≡? "empire") (tier ≡? "other"))
  where
    defaulted : (o : Option ℕ) → elim o [ none ↦ 0 | some n ↦ n ] ≡ or_zero o
    defaulted none = refl
    defaulted (some n) = refl

height-le : (tier : String) → height tier ≤ 5
height-le tier = ground arith

above :
    (a i b j : ℕ)
    → a ≤ 5
    → b ≤ 5
    → ◌≤?◌ {A = ℕ × ℕ} (5 - a, i) (5 - b, j) ≡ true
    → (b < a) ⊎ ((a ≡ b) × (i ≤ j))
above a i b j ha hb h = ground arith

grandeur-IsAbove : (t u : TitleSnapshot) → (grandeur t ≤? grandeur u) ≡ true → IsAbove t u
grandeur-IsAbove t u h =
    above (height t.tier) t.title_id (height u.tier) u.title_id (height-le t.tier)
      (height-le u.tier)
      (ap (λ (n : ℕ). ◌≤?◌ {A = ℕ × ℕ} (5 - n, t.title_id) (5 - height u.tier, u.title_id))
          (sym (rank-height t.tier))
        ∙ (ap
              (λ (n : ℕ).
                ◌≤?◌ {A = ℕ × ℕ} (5 - get_or t.tier 0 primary_tier_rank, t.title_id)
                  (5 - n, u.title_id))
              (sym (rank-height u.tier))
            ∙ h))

All-Has :
    (P : TitleSnapshot → Type 0) (xs : List TitleSnapshot) (u : TitleSnapshot)
    → All P xs
    → Has u xs
    → P u
All-Has P [] u a h = absurd h
All-Has P (x ∷ xs) u (a, rest) (inl same) = subst P same a
All-Has P (x ∷ xs) u (a, rest) (inr later) = All-Has P xs u rest later

-- The titles that the code finds are those of the save that the character holds.
module _ (snap : SaveSnapshot) (cid : ℕ) (parsed : IsParsed snap)
    (d : Distinct (keys snap.titles)) where
  index-scan :
      (tid : ℕ) → lists cid tid snap.title_holders ≡ member tid (titles_scan cid snap.titles)
  index-scan tid = ap (lists cid tid) parsed ∙ build_title_holders-scan cid tid snap.titles

  held-found :
      (t : TitleSnapshot)
      → Has t (get_titles_held_by snap cid)
      → Has t (titles_of snap) × (holds cid t ≡ true)
  unfolding get_titles_held_by
  held-found t h = elim (Bool-cases (is_empty snap.title_holders)) [
    | inl e ↦
        let h₁ : Has t (filter (holds cid) (titles_of snap)) = rw e at h in
        Has-filter (holds cid) t (titles_of snap) h₁
    | inr e ↦
        let h₁ : Has t
            (filter_map (λ tid. get tid snap.titles) (get_or cid [] snap.title_holders)) =
          rw e at h in
        let (tid, m, g) =
          Has-filter_map (λ tid. get tid snap.titles) t (get_or cid [] snap.title_holders) h₁ in
        (
          get-Has tid t snap.titles g,
          found-holds cid tid t snap.titles d
              (sym (index-scan tid) ∙ Has-member tid (get_or cid [] snap.title_holders) m) g,
        )
  ]

  found-held :
      (u : TitleSnapshot)
      → Has u (titles_of snap)
      → holds cid u ≡ true
      → Has u (get_titles_held_by snap cid)
  unfolding get_titles_held_by
  found-held u h e = elim (Bool-cases (is_empty snap.title_holders)) [
    | inl empty ↦ rw empty (filter-Has (holds cid) u (titles_of snap) h e)
    | inr full ↦
        let (tid, g, m) = value-found cid u snap.titles d h e in
        rw full (
          filter_map-Has (λ tid. get tid snap.titles) tid u (get_or cid [] snap.title_holders)
            (member-Has tid (get_or cid [] snap.title_holders) (index-scan tid ∙ m)) g)
  ]

  choice-IsPrimary :
      (o : Option TitleSnapshot) → IsChoice (get_titles_held_by snap cid) o → IsPrimary snap cid o
  choice-IsPrimary none e = λ u h. elim (Bool-cases (holds cid u)) [
    | inr n ↦ n
    | inl held ↦ absurd (subst (λ (xs : List TitleSnapshot). Has u xs) e (found-held u h held))
  ]
  choice-IsPrimary (some t) (m, best) =
      let (there, held) = held-found t m in
      (
        there,
        held,
        λ u h e. grandeur-IsAbove t u (
            All-Has (λ (v : TitleSnapshot). (grandeur t ≤? grandeur v) ≡ true)
              (get_titles_held_by snap cid) u best (found-held u h e)),
      )

  -- In a save with the index of the holders that the parser builds and titles under distinct ids, the
  -- primary title of a character is none exactly where no title of the save has the character as its
  -- holder; otherwise it is a title of the save, held by the character, and every other title that the
  -- character holds has a lower rank, or the same rank and an id that is not smaller.
  pub get_primary_title_held_by_lem : IsPrimary snap cid (get_primary_title_held_by snap cid)
  get_primary_title_held_by_lem =
      choice-IsPrimary (get_primary_title_held_by snap cid)
        (get_primary_title_held_by-IsChoice snap cid).1
