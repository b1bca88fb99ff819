-- ===== src/Diff/Snapshots.antt =====
-- save/diff.py: `diff_snapshots`. The log lines are not modelled.
pub mod Loop
pub mod Order
pub mod Filter
pub mod IdleCharacter
pub mod Idle
pub mod Total
pub mod Refused
use ck3_llm_chronicler.Base.{
  ℕ, String, Bool, true, false, not, ◌&&◌, ◌||◌, List, [], ◌∷◌, ◌++◌, map, Option, none, some,
  if◌then◌else◌, ◌≡?◌, nat_order, text_order, pair_order, Dict, get, keys, flat_map, sort_by,
  sorted,
}
use ck3_llm_chronicler.Snapshot.{CharacterSnapshot, SaveSnapshot, MemorySnapshot}
use ck3_llm_chronicler.Events.{Event, event_type}
use ck3_llm_chronicler.Diff.Types.{
  DiffEvent, Result, ok, raise, ◌>>=◌, playthrough_mismatch, non_empty, is_some,
}
use ck3_llm_chronicler.Diff.Make.{make_death}
use ck3_llm_chronicler.Diff.Character.{new_memories, diff_one_character}
use ck3_llm_chronicler.Diff.Attributes.{
  diff_traits, diff_concubines, diff_modifiers, diff_perks, diff_lifestyle_commits,
  diff_miscarriage, diff_state_changes, trait_id_by_name, pregnant_trait_name,
}
use ck3_llm_chronicler.Diff.Titles.{diff_titles}
use ck3_llm_chronicler.Diff.Streams.{stream_differs}

-- The character id and the type of an event: the key of the final sort.
abbrev pub sort_key : DiffEvent → ℕ × String
sort_key e = (e.event.c, event_type e.event.p)

-- The set that is iterated, walked in some order; the sort at the end makes the order free.
unfoldable pub all_ids : SaveSnapshot → SaveSnapshot → Option (List ℕ) → List ℕ
all_ids prev curr none = sorted (keys prev.characters ++ keys curr.characters)
all_ids prev curr (some tracked) = sorted tracked

-- Both saves name a playthrough, and not the same one.
abbrev pub mismatched : SaveSnapshot → SaveSnapshot → Bool
mismatched prev curr =
    non_empty prev.playthrough_id
    && (non_empty curr.playthrough_id && not (prev.playthrough_id ≡? curr.playthrough_id))

module _ (strip : Option String → Option String) (prev curr : SaveSnapshot)
    (tracked_filter : Option (List ℕ)) where
  -- The loop's body for a character that both snapshots have.
  unfoldable pub pair_events : ℕ → CharacterSnapshot → CharacterSnapshot → Result (List DiffEvent)
  pair_events cid p c =
      let date = curr.current_date in
      let memories = new_memories p c in
      let pregnant = trait_id_by_name pregnant_trait_name curr.traits_lookup in
      diff_titles cid prev curr date >>= λ titles. ok (
        diff_one_character p c date curr.characters memories
        ++ (titles
            ++ (flat_map (λ differ. differ cid c prev curr date) (stream_differs strip)
                ++ (diff_traits p c curr.traits_lookup date
                    ++ (diff_concubines p c curr.characters date
                        ++ (diff_modifiers p c date
                            ++ (diff_perks p c date
                                ++ (diff_lifestyle_commits p c date
                                    ++ (diff_miscarriage p c pregnant date memories
                                        ++ diff_state_changes p c curr.houses_lookup
                                            curr.cultures_lookup curr.faiths_lookup date)))))))))

  -- A character that only `curr` has: a tracked one that is dead emits the missed death.
  unfoldable pub first_observed : CharacterSnapshot → List DiffEvent
  first_observed c =
      if is_some tracked_filter && (c.is_dead || is_some c.death_date)
      then make_death c curr.current_date ∷ []
      else []

  unfoldable pub character_events :
      ℕ → Option CharacterSnapshot → Option CharacterSnapshot → Result (List DiffEvent)
  character_events cid p none = ok []
  character_events cid none (some c) = ok (first_observed c)
  character_events cid (some p) (some c) = pair_events cid p c

  unfoldable pub id_events : ℕ → Result (List DiffEvent)
  id_events cid = character_events cid (get cid prev.characters) (get cid curr.characters)

  -- The loop over the ids.
  unfoldable pub ids_events : List ℕ → Result (List DiffEvent)
  ids_events [] = ok []
  ids_events (cid ∷ rest) = do events ← id_events cid; later ← ids_events rest; ok (events ++ later)

  -- The guard, the loop over the ids in the given order, and the sort.
  unfoldable pub diff_over : List ℕ → Result (List DiffEvent)
  diff_over ids =
      if mismatched prev curr
      then raise (playthrough_mismatch prev.playthrough_id curr.playthrough_id)
      else (do out ← ids_events ids; ok (sort_by sort_key out))

  unfoldable pub diff_snapshots : Result (List DiffEvent)
  diff_snapshots = diff_over (all_ids prev curr tracked_filter)
