-- ===== src/Parse/Holders.antt =====
-- src/chronicler/save/parse.py: the index of the holders, against the scan of the titles, and the diff of
-- saves that carry it.
use ck3_llm_chronicler.Base.{
  ℕ, String, true, false, ◌||◌, ◌&&◌, List, [], ◌∷◌, Option, none, some, ◌≡?◌, nat_order,
  text_order, pair_order, Dict, get, has_key, has_key-eq-member, member, same_option, is_empty,
  IsSorted, ◌≡◌, ◌∙◌, refl, arith, inl, inr, Bool-cases, ap, sym,
}
use ck3_llm_chronicler.Snapshot.{SaveSnapshot, TitleSnapshot}
use ck3_llm_chronicler.Diff.Types.{DiffEvent, ok}
use ck3_llm_chronicler.Diff.Titles.{titles_scan, held_titles}
use ck3_llm_chronicler.Diff.Snapshots.{sort_key, mismatched, diff_snapshots}
use ck3_llm_chronicler.Diff.Snapshots.Total.{
  IsIndexed, member-keys-filter, scan-IsIndexed, diff_snapshots_total,
}
use ck3_llm_chronicler.Parse.Titles.{add_holders, build_title_holders}
use ck3_llm_chronicler.Parse.Index.{lists, add_to, add_to_lem}

add_holder-lists :
    (cid tid k : ℕ) (holder : Option ℕ) (d : Dict ℕ (List ℕ))
    → lists cid tid (elim holder [ none ↦ d | some h ↦ add_to h k d ])
      ≡ ((same_option holder (some cid) && (tid ≡? k)) || lists cid tid d)
add_holder-lists cid tid k none d = refl
add_holder-lists cid tid k (some h) d = ground (arith, add_to_lem h k cid tid d)

scan-member :
    (cid tid k : ℕ) (t : TitleSnapshot) (titles : Dict ℕ TitleSnapshot)
    → member tid (titles_scan cid ((k, t) ∷ titles))
      ≡ ((same_option t.holder_id (some cid) && (tid ≡? k)) || member tid (titles_scan cid titles))
unfolding titles_scan member
scan-member cid tid k t titles = elim (Bool-cases (same_option t.holder_id (some cid))) [
  | inl e ↦ rw e refl
  | inr e ↦ rw e refl
]

add_holders-lists :
    (cid tid : ℕ) (titles : Dict ℕ TitleSnapshot) (d : Dict ℕ (List ℕ))
    → lists cid tid (add_holders titles d)
      ≡ (member tid (titles_scan cid titles) || lists cid tid d)
unfolding add_holders titles_scan member
add_holders-lists cid tid [] d = refl
add_holders-lists cid tid ((k, t) ∷ titles) d =
    rw (add_holders-lists cid tid titles _) (
      rw (scan-member cid tid k t titles)
        (ground (arith, add_holder-lists cid tid k t.holder_id d)))

-- The index that the parser builds gives a character the titles that a scan of all titles gives.
pub build_title_holders-scan :
    (cid tid : ℕ) (titles : Dict ℕ TitleSnapshot)
    → lists cid tid (build_title_holders titles) ≡ member tid (titles_scan cid titles)
unfolding build_title_holders get member
build_title_holders-scan cid tid titles = add_holders-lists cid tid titles [] ∙ ground arith

-- The index of a snapshot is the one that the parser builds of its titles.
abbrev pub IsParsed : SaveSnapshot → Type 0
IsParsed s = s.title_holders ≡ build_title_holders s.titles

scan-has_key :
    (cid tid : ℕ) (titles : Dict ℕ TitleSnapshot)
    → member tid (titles_scan cid titles) ≡ true
    → has_key tid titles ≡ true
unfolding titles_scan
scan-has_key cid tid titles m =
    has_key-eq-member tid titles
    ∙ member-keys-filter (λ e. same_option e.1.holder_id (some cid)) tid titles m

parsed-IsIndexed : (s : SaveSnapshot) → IsParsed s → IsIndexed s
unfolding held_titles
parsed-IsIndexed s h cid tid m = elim (Bool-cases (is_empty s.title_holders)) [
  | inl e ↦ scan-IsIndexed s e cid tid m
  | inr e ↦
      let listed : lists cid tid s.title_holders ≡ true = rw e at m in
      scan-has_key cid tid s.titles
        (sym (build_title_holders-scan cid tid s.titles) ∙ (ap (lists cid tid) (sym h) ∙ listed))
]

-- Two saves of one playthrough, each with the title index that the parser builds, always have a diff,
-- and its events ascend by character id, then by event type. No title of the index is missing.
pub parsed_diff_total :
    (strip : Option String → Option String) (prev curr : SaveSnapshot) (tracked : Option (List ℕ))
    → IsParsed prev
    → IsParsed curr
    → mismatched prev curr ≡ false
    → (out : List DiffEvent) × (diff_snapshots strip prev curr tracked ≡ ok out)
      × IsSorted sort_key out
parsed_diff_total strip prev curr tracked hp hc h =
    diff_snapshots_total strip prev curr tracked (parsed-IsIndexed prev hp)
      (parsed-IsIndexed curr hc) h
