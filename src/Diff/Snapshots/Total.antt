-- ===== src/Diff/Snapshots/Total.antt =====
-- When `diff_snapshots` succeeds, and what it returns then.
use ck3_llm_chronicler.Base.{
  ℕ, String, Bool, true, false, List, [], ◌∷◌, Option, none, some, ◌≡◌, ◌≢◌, refl, ◌∙◌, arith, inl,
  inr, nat_order, text_order, pair_order, Dict, get, has_key, member, sorted, difference,
  member-sorted, member-difference, ≡?_refl, ◌≡?◌, sort_by, IsSorted, sort_by-IsSorted, Bool-cases,
  Option-cases, is_empty, eq_of_≡?, keys, filter, same_option, has_key-eq-member,
}
use ck3_llm_chronicler.Snapshot.{CharacterSnapshot, SaveSnapshot, TitleSnapshot}
use ck3_llm_chronicler.Diff.Types.{DiffEvent, Result, ok, raise, ◌>>=◌, playthrough_mismatch}
use ck3_llm_chronicler.Diff.Titles.{
  diff_titles, gained_events, dropped_events, held_titles, titles_scan,
}
use ck3_llm_chronicler.Diff.Snapshots.{
  sort_key, mismatched, all_ids, pair_events, character_events, id_events, ids_events, diff_over,
  diff_snapshots,
}

-- The title index names only titles that the snapshot has.
abbrev pub IsIndexed : SaveSnapshot → Type 0
IsIndexed s = (cid tid : ℕ) → member tid (held_titles cid s) ≡ true → has_key tid s.titles ≡ true

pub member-keys-filter :
    (p : ℕ × TitleSnapshot → Bool) (tid : ℕ) (d : Dict ℕ TitleSnapshot)
    → member tid (keys (filter p d)) ≡ true
    → member tid (keys d) ≡ true
unfolding member
member-keys-filter p tid [] h = h
member-keys-filter p tid (e ∷ d) h = ground (arith, member-keys-filter p tid d)

-- A snapshot without the index is scanned, so names its own titles only.
pub scan-IsIndexed : (s : SaveSnapshot) → is_empty s.title_holders ≡ true → IsIndexed s
unfolding held_titles titles_scan
scan-IsIndexed s h cid tid m =
    has_key-eq-member tid s.titles
    ∙ member-keys-filter (λ e. same_option e.1.holder_id (some cid)) tid s.titles (rw h at m)

abbrev Succeeds : Result (List DiffEvent) → Type 0
Succeeds r = (out : List DiffEvent) × (r ≡ ok out)

bind_Succeeds :
    (m : Result (List DiffEvent)) (f : List DiffEvent → Result (List DiffEvent))
    → Succeeds m
    → ((es : List DiffEvent) → Succeeds (f es))
    → Succeeds (m >>= f)
bind_Succeeds m f (es, e) h = rw e (h es)

found :
    (k : ℕ) (d : Dict ℕ TitleSnapshot)
    → has_key k d ≡ true
    → (t : TitleSnapshot) × (get k d ≡ some t)
found k d h = elim (Option-cases (get k d)) [ inl e ↦ absurd (ground arith) | inr t ↦ t ]

module _ (cid : ℕ) (prev curr : SaveSnapshot) (date : String) where
  gained_Succeeds :
      (tids : List ℕ)
      → ((tid : ℕ) → member tid tids ≡ true → has_key tid curr.titles ≡ true)
      → Succeeds (gained_events cid prev curr date tids)
  unfolding gained_events member
  gained_Succeeds [] h = ([], refl)
  gained_Succeeds (tid ∷ rest) h =
      let (t, e) = found tid curr.titles (h tid (ground (arith, ≡?_refl tid))) in
      rw e (
        bind_Succeeds (gained_events cid prev curr date rest) _
          (gained_Succeeds rest (λ k m. h k (ground arith))) (λ es. (_, refl)))

  dropped_Succeeds :
      (tids : List ℕ)
      → ((tid : ℕ) → member tid tids ≡ true → has_key tid prev.titles ≡ true)
      → Succeeds (dropped_events cid prev curr date tids)
  unfolding dropped_events member
  dropped_Succeeds [] h = ([], refl)
  dropped_Succeeds (tid ∷ rest) h =
      let (t, e) = found tid prev.titles (h tid (ground (arith, ≡?_refl tid))) in
      rw e (
        bind_Succeeds (dropped_events cid prev curr date rest) _
          (dropped_Succeeds rest (λ k m. h k (ground arith))) (λ es. (_, refl)))

  member-sorted-difference :
      (tid : ℕ) (xs ys : List ℕ)
      → member tid (sorted (difference xs ys)) ≡ true
      → member tid xs ≡ true
  member-sorted-difference tid xs ys h =
      ground (arith, member-sorted tid (difference xs ys), member-difference tid xs ys)

  pub diff_titles-Succeeds :
      IsIndexed prev → IsIndexed curr → Succeeds (diff_titles cid prev curr date)
  unfolding diff_titles
  diff_titles-Succeeds hp hc = elim (Bool-cases (is_empty prev.titles)) [
    | inl e ↦ rw e ([], refl)
    | inr e ↦
        let ph = held_titles cid prev in
        let ch = held_titles cid curr in
        rw e (
          bind_Succeeds (gained_events cid prev curr date (sorted (difference ch ph))) _
            (gained_Succeeds (sorted (difference ch ph))
              (λ tid m. hc cid tid (member-sorted-difference tid ch ph m)))
            (λ gained.
              bind_Succeeds (dropped_events cid prev curr date (sorted (difference ph ch))) _
                (dropped_Succeeds (sorted (difference ph ch))
                  (λ tid m. hp cid tid (member-sorted-difference tid ph ch m)))
                (λ dropped. (_, refl))))
  ]

module _ (strip : Option String → Option String) (prev curr : SaveSnapshot)
    (tracked : Option (List ℕ)) where
  character_Succeeds :
      (cid : ℕ) (p c : Option CharacterSnapshot)
      → IsIndexed prev
      → IsIndexed curr
      → Succeeds (character_events strip prev curr tracked cid p c)
  unfolding character_events pair_events
  character_Succeeds cid p none hp hc = ([], refl)
  character_Succeeds cid none (some c) hp hc = (_, refl)
  character_Succeeds cid (some p) (some c) hp hc =
      bind_Succeeds (diff_titles cid prev curr curr.current_date) _
        (diff_titles-Succeeds cid prev curr curr.current_date hp hc) (λ titles. (_, refl))

  ids_Succeeds :
      (ids : List ℕ)
      → IsIndexed prev
      → IsIndexed curr
      → Succeeds (ids_events strip prev curr tracked ids)
  unfolding ids_events id_events
  ids_Succeeds [] hp hc = ([], refl)
  ids_Succeeds (cid ∷ ids) hp hc =
      bind_Succeeds (character_events strip prev curr tracked cid _ _) _
        (character_Succeeds cid (get cid prev.characters) (get cid curr.characters) hp hc)
        (λ es.
          bind_Succeeds (ids_events strip prev curr tracked ids) _ (ids_Succeeds ids hp hc)
            (λ later. (_, refl)))

  -- With title indexes that name only titles of their snapshot, two saves that do not name different
  -- playthroughs always have a diff, and its events ascend by character id, then by event type.
  pub diff_snapshots_total :
      IsIndexed prev
      → IsIndexed curr
      → mismatched prev curr ≡ false
      → (out : List DiffEvent) × (diff_snapshots strip prev curr tracked ≡ ok out)
        × IsSorted sort_key out
  unfolding diff_snapshots diff_over
  diff_snapshots_total hp hc h =
      let (out, e) = ids_Succeeds (all_ids prev curr tracked) hp hc in
      (sort_by sort_key out, rw h (rw e), sort_by-IsSorted sort_key out)

  -- Two saves that name different playthroughs are refused, with both names in the error.
  pub diff_snapshots_mismatch :
      prev.playthrough_id ≢ ""
      → curr.playthrough_id ≢ ""
      → prev.playthrough_id ≢ curr.playthrough_id
      → diff_snapshots strip prev curr tracked
        ≡ raise (playthrough_mismatch prev.playthrough_id curr.playthrough_id)
  unfolding diff_snapshots diff_over
  diff_snapshots_mismatch h k ne = rw (differs prev.playthrough_id "" h) (
      rw (differs curr.playthrough_id "" k)
        (rw (differs prev.playthrough_id curr.playthrough_id ne)))
    where
      differs : (s t : String) → s ≢ t → (s ≡? t) ≡ false
      differs s t n = elim (Bool-cases (s ≡? t)) [ inl e ↦ absurd (n (eq_of_≡? s t e)) | inr e ↦ e ]
