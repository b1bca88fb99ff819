-- ===== src/Parse/Total.antt =====
-- src/chronicler/save/parse.py: the titles of every save are parsed.
use ck3_llm_chronicler.Base.{
  ℕ, zero, suc, ◌+◌, ◌<◌, String, true, List, [], ◌∷◌, Option, some, nat_order, text_order, Dict,
  get, member, keys, length, ◌≡◌, refl, arith, inl, inr, Bool-cases, Option-cases,
}
use ck3_llm_chronicler.Snapshot.{TitleSnapshot}
use ck3_llm_chronicler.Parse.Json.{Fields}
use ck3_llm_chronicler.Parse.Titles.{
  RawTitle, Raws, Memo, infer_tier_for_title, title_rows, parse_titles, collect_raws, title_of,
}
use ck3_llm_chronicler.Parse.Unseen.{unseen, unseen-lt, unseen-nil, length-keys, get-member-keys}
use ck3_llm_chronicler.Parse.Tiers.{KeyWins, Sane, Answers, Unnamed, infer_known-Answers, in_flight}

module _ (raws : Raws) where
  infer-Answers :
      (fuel tid : ℕ) (inflight : List ℕ) (memo : Memo)
      → unseen inflight (keys raws) < fuel
      → ((k : ℕ) → member k inflight ≡ true → Unnamed raws k)
      → Sane raws memo
      → Answers raws tid (infer_tier_for_title fuel raws tid inflight memo)
  unfolding infer_tier_for_title
  infer-Answers zero tid inflight memo h u s = absurd (omega arith)
  infer-Answers (suc fuel) tid inflight memo h u s = elim (Option-cases (get tid memo)) [
    | inr (tier, e) ↦ rw (e, infer_tier_for_title) (tier, memo, refl, s tid tier e, s)
    | inl e ↦ elim (Bool-cases (member tid inflight)) [
      | inl m ↦ rw (e, infer_tier_for_title) (rw m ("other", memo, refl, u tid m "other", s))
      | inr m ↦
          rw (e, infer_tier_for_title)
            (rw m (
              infer_known-Answers raws (λ k. infer_tier_for_title fuel raws k (tid ∷ inflight)) tid
                (get tid raws) memo refl s
                (λ title g v k next t.
                  infer-Answers fuel k (tid ∷ inflight) next
                    (omega (
                      arith,
                      h,
                      unseen-lt tid inflight (keys raws) (get-member-keys tid title raws g) m,
                    ))
                    (in_flight raws tid inflight u v) t)))
    ]
  ]

  module _ (strip : Option String → Option String) where
    -- The rows are those of the records, and a key that names a tier gives it.
    abbrev pub Follow : List (ℕ × RawTitle) → Dict ℕ TitleSnapshot → Type 0
    Follow [] [] = Unit
    Follow [] (row ∷ rows) = ⊥
    Follow (e ∷ es) [] = ⊥
    Follow ((tid, title) ∷ es) (row ∷ rows) =
        (tier : String) × (row ≡ (tid, title_of strip tid title tier))
        × KeyWins raws tid tier
        × Follow es rows

    title_rows-Follow :
        (es : List (ℕ × RawTitle)) (memo : Memo)
        → Sane raws memo
        → (out : Dict ℕ TitleSnapshot) × (title_rows strip raws es memo ≡ some out) × Follow es out
    unfolding title_rows
    title_rows-Follow [] memo s = ([], refl, tt)
    title_rows-Follow ((tid, title) ∷ es) memo s =
        let (tier, next, e, w, t) =
          infer-Answers (length raws + 1) tid [] memo
            (omega (arith, unseen-nil (keys raws), length-keys raws)) (λ k m. absurd cc) s in
        let (out, f, follow) = title_rows-Follow es next t in
        ((tid, title_of strip tid title tier) ∷ out, rw e (rw f refl), (tier, refl, w, follow))

-- The titles of every save are parsed, whatever the hierarchy of lieges and vassals looks like, with
-- cycles too: the fuel is never used up. There is one title for each record that has a key, in their
-- order, with what the record says of it; and where the key of the record names a tier, that is the
-- tier of the title.
pub parse_titles_total :
    (strip : Option String → Option String) (data_fields : Fields)
    → let raws = collect_raws data_fields in
      (out : Dict ℕ TitleSnapshot) × (parse_titles strip data_fields ≡ some out)
      × Follow raws strip raws out
unfolding parse_titles get
parse_titles_total strip data_fields =
    let raws = collect_raws data_fields in
    title_rows-Follow raws strip raws [] (λ k tier e. absurd cc)
