-- ===== src/Diff/SetOwner.antt =====
-- Whose events the set differs of save/diff.py emit.
use ck3_llm_chronicler.Base.{
  ℕ, String, List, [], ◌++◌, Option, none, some, ◌≡◌, refl, arith, if◌then◌else◌, All-append,
  All-silent, All-filter_map, sorted, difference, same_set, nat_order, get_or,
}
use ck3_llm_chronicler.Snapshot.{CharacterSnapshot, SaveSnapshot}
use ck3_llm_chronicler.Diff.Types.{DiffEvent}
use ck3_llm_chronicler.Diff.SetDiff.{
  SetDiffBuilder, SetDiffSpec, make_set_differ, run_builder, alliance_added, alliance_removed,
  artifact_added, artifact_removed, epidemic_added, activity_removed, inspiration_added,
  court_position_added, court_position_removed,
}
use ck3_llm_chronicler.Diff.Owner.{Owned, option_map_owned}

abbrev pub IsOwnedBy : ℕ → DiffEvent → Type 0
IsOwnedBy cid e = e.event.c ≡ cid

-- An optional builder makes events of the character that it is called for.
abbrev pub OwnedBuilder : Option SetDiffBuilder → Type 0
OwnedBuilder none = Unit
OwnedBuilder (some build) =
    (cid eid : ℕ) (prev curr : SaveSnapshot) (date : String) (e : DiffEvent)
    → build cid eid prev curr date ≡ some e
    → e.event.c ≡ cid

pub run_builder-Owned :
    (b : Option SetDiffBuilder) (cid : ℕ) (ids : List ℕ) (prev curr : SaveSnapshot) (date : String)
    → OwnedBuilder b
    → Owned cid (run_builder b cid ids prev curr date)
unfolding run_builder
run_builder-Owned none cid ids prev curr date h = tt
run_builder-Owned (some build) cid ids prev curr date h =
    All-filter_map (IsOwnedBy cid) (λ eid. build cid eid prev curr date) ids
      (λ eid e k. h cid eid prev curr date e k)

pub set_differ-Owned :
    (spec : SetDiffSpec)
    → OwnedBuilder spec.on_added
    → OwnedBuilder spec.on_removed
    → (cid : ℕ) (char : CharacterSnapshot) (prev curr : SaveSnapshot) (date : String)
    → Owned cid (make_set_differ spec cid char prev curr date)
unfolding make_set_differ
set_differ-Owned spec added removed cid char prev curr date =
    let ps = get_or cid [] (spec.index prev) in
    let cs = get_or cid [] (spec.index curr) in
    let add = run_builder spec.on_added cid (sorted (difference cs ps)) prev curr date in
    let rem = run_builder spec.on_removed cid (sorted (difference ps cs)) prev curr date in
    All-silent (IsOwnedBy cid) char.is_dead (if same_set ps cs then [] else add ++ rem) (
      All-silent (IsOwnedBy cid) (same_set ps cs) (add ++ rem) (
        All-append (IsOwnedBy cid) add rem
          (run_builder-Owned spec.on_added cid (sorted (difference cs ps)) prev curr date added)
          (run_builder-Owned spec.on_removed cid (sorted (difference ps cs)) prev curr date
            removed)))

pub alliance_added-Owned : OwnedBuilder (some alliance_added)
unfolding alliance_added
alliance_added-Owned cid eid prev curr date e h = ground arith

pub alliance_removed-Owned : OwnedBuilder (some alliance_removed)
unfolding alliance_removed
alliance_removed-Owned cid eid prev curr date e h = ground arith

pub artifact_added-Owned : OwnedBuilder (some artifact_added)
unfolding artifact_added
artifact_added-Owned cid eid prev curr date e h = option_map_owned _ _ e (λ k. refl) h

pub artifact_removed-Owned : OwnedBuilder (some artifact_removed)
unfolding artifact_removed
artifact_removed-Owned cid eid prev curr date e h = option_map_owned _ _ e (λ k. refl) h

pub epidemic_added-Owned : OwnedBuilder (some epidemic_added)
unfolding epidemic_added
epidemic_added-Owned cid eid prev curr date e h = option_map_owned _ _ e (λ k. refl) h

pub activity_removed-Owned : OwnedBuilder (some activity_removed)
unfolding activity_removed
activity_removed-Owned cid eid prev curr date e h = option_map_owned _ _ e (λ k. refl) h

pub inspiration_added-Owned : OwnedBuilder (some inspiration_added)
unfolding inspiration_added
inspiration_added-Owned cid eid prev curr date e h = option_map_owned _ _ e (λ k. refl) h

pub court_position_added-Owned : OwnedBuilder (some court_position_added)
unfolding court_position_added
court_position_added-Owned cid eid prev curr date e h = option_map_owned _ _ e (λ k. refl) h

pub court_position_removed-Owned : OwnedBuilder (some court_position_removed)
unfolding court_position_removed
court_position_removed-Owned cid eid prev curr date e h = option_map_owned _ _ e (λ k. refl) h
