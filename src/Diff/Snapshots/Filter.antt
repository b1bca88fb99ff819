-- ===== src/Diff/Snapshots/Filter.antt =====
-- The tracked filter of `diff_snapshots`: what it drops at the source.
use ck3_llm_chronicler.Base.{
  ℕ, String, Bool, true, false, List, [], ◌∷◌, ◌++◌, Option, none, some, ◌≡◌, refl, sym, ap, ◌∙◌,
  arith, inl, inr, nat_order, Dict, get, has_key, has_key-eq-member, keys, member, member-filter,
  member-sorted, member-append, sorted, sorted-IsAscending, filter, filter-IsAscending,
  IsAscending-ext, sort_by, filter-sort_by, Bool-cases, if◌then◌else◌, pair_order, text_order,
}
use ck3_llm_chronicler.Snapshot.{CharacterSnapshot, SaveSnapshot}
use ck3_llm_chronicler.Diff.Types.{DiffEvent, Result, ok, raise, ◌>>=◌, is_some}
use ck3_llm_chronicler.Diff.Owner.{Owned, OwnedResult}
use ck3_llm_chronicler.Diff.Snapshots.{
  sort_key, mismatched, all_ids, pair_events, character_events, id_events, ids_events, diff_over,
  diff_snapshots,
}
use ck3_llm_chronicler.Diff.Snapshots.Loop.{IsKeyed, owned_id}

-- The event is about a tracked character.
abbrev pub is_about : List ℕ → DiffEvent → Bool
is_about tracked e = member e.event.c tracked

-- Every tracked character of `curr` has a record in `prev`.
abbrev pub AllSeen : SaveSnapshot → SaveSnapshot → List ℕ → Type 0
AllSeen prev curr tracked =
    (cid : ℕ)
    → member cid tracked ≡ true
    → has_key cid curr.characters ≡ true
    → has_key cid prev.characters ≡ true

filter-append :
    (p : DiffEvent → Bool) (xs ys : List DiffEvent)
    → filter p (xs ++ ys) ≡ filter p xs ++ filter p ys
filter-append p [] ys = refl
filter-append p (x ∷ xs) ys = ground (arith, filter-append p xs ys)

drop_nil : (r s : Result (List DiffEvent)) → r ≡ s → (r >>= λ later. ok ([] ++ later)) ≡ s
drop_nil (ok a) s h = h
drop_nil (raise e) s h = h

-- The filter keeps or drops the events of one character together.
filter-Owned :
    (tracked : List ℕ) (cid : ℕ) (es : List DiffEvent)
    → Owned cid es
    → filter (is_about tracked) es ≡ (if member cid tracked then es else [])
filter-Owned tracked cid [] h = ground arith
filter-Owned tracked cid (e ∷ es) (h, k) = rw h (ground (arith, filter-Owned tracked cid es k))

module _ (strip : Option String → Option String) (prev curr : SaveSnapshot) where
  -- Without the exception for first-observed deaths the filter does not change a round.
  character_events_same :
      (tracked : List ℕ) (cid : ℕ) (p c : Option CharacterSnapshot)
      → (is_some c ≡ true → is_some p ≡ true)
      → character_events strip prev curr (some tracked) cid p c
        ≡ character_events strip prev curr none cid p c
  unfolding character_events pair_events
  character_events_same tracked cid p none h = refl
  character_events_same tracked cid none (some c) h = cc (h refl)
  character_events_same tracked cid (some p) (some c) h = refl

  character_events_none :
      (tracked : Option (List ℕ)) (cid : ℕ) (p c : Option CharacterSnapshot)
      → is_some c ≡ false
      → character_events strip prev curr tracked cid p c ≡ ok []
  unfolding character_events
  character_events_none tracked cid p none h = refl
  character_events_none tracked cid p (some c) h = cc

  has_key-eq-is_some :
      (cid : ℕ) (d : Dict ℕ CharacterSnapshot) → has_key cid d ≡ is_some (get cid d)
  has_key-eq-is_some cid d = ground arith

  id_events_unknown :
      (tracked : Option (List ℕ)) (cid : ℕ)
      → has_key cid curr.characters ≡ false
      → id_events strip prev curr tracked cid ≡ ok []
  unfolding id_events
  id_events_unknown tracked cid h =
      character_events_none tracked cid (get cid prev.characters) (get cid curr.characters)
        (sym (has_key-eq-is_some cid curr.characters) ∙ h)

  id_events_same :
      (tracked : List ℕ) (cid : ℕ)
      → AllSeen prev curr tracked
      → member cid tracked ≡ true
      → id_events strip prev curr (some tracked) cid ≡ id_events strip prev curr none cid
  unfolding id_events
  id_events_same tracked cid seen m =
      character_events_same tracked cid (get cid prev.characters) (get cid curr.characters) (λ h.
        sym (has_key-eq-is_some cid prev.characters)
        ∙ seen cid m (has_key-eq-is_some cid curr.characters ∙ h))

  -- The ids that `curr` does not have add nothing to the loop.
  loop_known :
      (tracked : Option (List ℕ)) (ids : List ℕ)
      → ids_events strip prev curr tracked ids
        ≡ ids_events strip prev curr tracked (filter (λ cid. has_key cid curr.characters) ids)
  unfolding ids_events
  loop_known tracked [] = refl
  loop_known tracked (cid ∷ ids) = elim (Bool-cases (has_key cid curr.characters)) [
    | inl e ↦ rw e (rw (loop_known tracked ids))
    | inr e ↦ rw e (rw (id_events_unknown tracked cid e) (drop_nil _ _ (loop_known tracked ids)))
  ]

  Filtered : List ℕ → Result (List DiffEvent) → Result (List DiffEvent) → Type 0
  Filtered tracked (ok all) r = r ≡ ok (filter (is_about tracked) all)
  Filtered tracked (raise e) r = Unit

  round :
      (tracked : List ℕ) (cid : ℕ) (m r s : Result (List DiffEvent))
      → OwnedResult cid m
      → Filtered tracked r s
      → Filtered tracked
          (m >>= λ events. r >>= λ later. ok (events ++ later))
          (if member cid tracked then (m >>= λ events. s >>= λ later. ok (events ++ later)) else s)
  unfolding Filtered
  round tracked cid (raise e) r s h k = tt
  round tracked cid (ok es) (raise e) s h k = tt
  round tracked cid (ok es) (ok later) s h k = rw k (
      rw (filter-append (is_about tracked) es later)
        (rw (filter-Owned tracked cid es h) (ground arith)))

  -- The loop over the tracked ids alone emits what the whole loop emits about them.
  loop-Filtered :
      (tracked : List ℕ) (ids : List ℕ)
      → IsKeyed curr
      → AllSeen prev curr tracked
      → Filtered tracked
          (ids_events strip prev curr none ids)
          (ids_events strip prev curr (some tracked) (filter (λ cid. member cid tracked) ids))
  unfolding ids_events
  loop-Filtered tracked [] keyed seen = unfold Filtered in refl
  loop-Filtered tracked (cid ∷ ids) keyed seen =
      let m = id_events strip prev curr none cid in
      let r = ids_events strip prev curr none ids in
      let s = ids_events strip prev curr (some tracked) (filter (λ k. member k tracked) ids) in
      let step =
        round tracked cid m r s (owned_id strip prev curr none keyed cid)
          (loop-Filtered tracked ids keyed seen) in
      elim (Bool-cases (member cid tracked)) [
        | inl e ↦ rw e (rw (id_events_same tracked cid seen e) (rw e at step))
        | inr e ↦ rw e (rw e at step)
      ]

  known_tracked :
      (tracked : List ℕ)
      → filter (λ cid. has_key cid curr.characters) (sorted tracked)
        ≡ filter
            (λ cid. has_key cid curr.characters)
            (filter
              (λ cid. member cid tracked)
              (sorted (keys prev.characters ++ keys curr.characters)))
  known_tracked tracked =
      let known = λ (cid : ℕ). has_key cid curr.characters in
      let named = λ (cid : ℕ). member cid tracked in
      let all = sorted (keys prev.characters ++ keys curr.characters) in
      IsAscending-ext (filter known (sorted tracked)) (filter known (filter named all))
        (filter-IsAscending known (sorted tracked) (sorted-IsAscending tracked))
        (filter-IsAscending known (filter named all) (
          filter-IsAscending named all
            (sorted-IsAscending (keys prev.characters ++ keys curr.characters))))
        (λ a. rw (member-filter a known (sorted tracked)) (
          rw (member-sorted a tracked) (
            rw (member-filter a known (filter named all)) (
              rw (member-filter a named all) (
                rw (member-sorted a (keys prev.characters ++ keys curr.characters)) (
                  rw (member-append a (keys prev.characters) (keys curr.characters))
                    (rw (has_key-eq-member a curr.characters) (ground arith))))))))

  finish :
      (tracked : List ℕ) (r s : Result (List DiffEvent)) (out : List DiffEvent)
      → Filtered tracked r s
      → (r >>= λ all. ok (sort_by sort_key all)) ≡ ok out
      → (s >>= λ all. ok (sort_by sort_key all)) ≡ ok (filter (is_about tracked) out)
  unfolding Filtered
  finish tracked (raise e) s out h k = cc
  finish tracked (ok all) s out h k =
      rw h (ground (arith, filter-sort_by sort_key (is_about tracked) all))

  -- Dropping the untracked characters at the source is dropping their events afterwards: when every
  -- tracked character of `curr` is in `prev` too, `curr` keeps each record under its id and the
  -- unfiltered diff succeeds, the filtered diff returns exactly the unfiltered events that are about
  -- a tracked character, in the same order.
  pub diff_snapshots-filter :
      (tracked : List ℕ) (out : List DiffEvent)
      → IsKeyed curr
      → AllSeen prev curr tracked
      → diff_snapshots strip prev curr none ≡ ok out
      → diff_snapshots strip prev curr (some tracked) ≡ ok (filter (is_about tracked) out)
  unfolding diff_snapshots diff_over all_ids
  diff_snapshots-filter tracked out keyed seen h = elim (Bool-cases (mismatched prev curr)) [
    | inl e ↦ absurd (ground arith)
    | inr e ↦
        let all = sorted (keys prev.characters ++ keys curr.characters) in
        let loop = ids_events strip prev curr (some tracked) in
        let same : loop (sorted tracked) ≡ loop (filter (λ cid. member cid tracked) all) =
          loop_known (some tracked) (sorted tracked)
          ∙ ap loop (known_tracked tracked)
          ∙ sym (loop_known (some tracked) (filter (λ cid. member cid tracked) all)) in
        rw e (
          rw same (
            finish tracked (ids_events strip prev curr none all)
              (loop (filter (λ cid. member cid tracked) all)) out
              (loop-Filtered tracked all keyed seen) (rw e at h)))
  ]
