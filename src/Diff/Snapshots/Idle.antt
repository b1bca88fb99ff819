-- ===== src/Diff/Snapshots/Idle.antt =====
-- A snapshot against itself: nothing happened.
use ck3_llm_chronicler.Base.{
  ℕ, String, List, [], ◌∷◌, ◌++◌, Option, none, some, ◌≡◌, refl, arith, inl, inr, nat_order,
  text_order, pair_order, Dict, get, get_or, sorted, sort_by, difference_self, same_set_refl,
  filter_map, filter_map-none, flat_map, Option-cases, ≡?_refl,
}
use ck3_llm_chronicler.Snapshot.{
  CharacterSnapshot, SaveSnapshot, ContractSnapshot, WarSnapshot, DomicileSnapshot,
  ConstructionSnapshot, Slot,
}
use ck3_llm_chronicler.Diff.Types.{ok}
use ck3_llm_chronicler.Diff.Titles.{diff_titles, gained_events, dropped_events, held_titles}
use ck3_llm_chronicler.Diff.Wars.{diff_wars}
use ck3_llm_chronicler.Diff.Dynasties.{diff_dynasty_legacies, dynasty_of, diff_dynasty_splendor}
use ck3_llm_chronicler.Diff.Streams.{
  contract_event, diff_contracts, diff_domicile, diff_constructions, stream_differs,
}
use ck3_llm_chronicler.Diff.Snapshots.{
  all_ids, pair_events, character_events, id_events, ids_events, diff_over, diff_snapshots,
}
use ck3_llm_chronicler.Diff.Snapshots.IdleCharacter.{
  idle_set_differ, idle_one_character, idle_traits, idle_concubines, idle_modifiers, idle_perks,
  idle_lifestyle_commits, idle_miscarriage, idle_state_changes,
}

module _ (cid : ℕ) (c : CharacterSnapshot) (date : String) where
  idle_wars :
      (strip : Option String → Option String) (w : Dict ℕ WarSnapshot) (i : Dict ℕ (List ℕ))
      → diff_wars strip cid c w w i i date ≡ []
  unfolding diff_wars
  idle_wars strip w i = rw (same_set_refl (get_or cid [] i)) (ground arith)

  idle_legacies :
      (p : Dict ℕ (List String)) (h2d : Dict ℕ ℕ) (names : Dict ℕ String)
      → diff_dynasty_legacies cid c p p h2d names date ≡ []
  unfolding diff_dynasty_legacies sorted
  idle_legacies p h2d names = elim (Option-cases (dynasty_of c h2d)) [
    | inl e ↦ rw e (ground arith)
    | inr (d, e) ↦ rw e (rw (difference_self (get_or d [] p)) (ground arith))
  ]

  idle_splendor :
      (r h2d : Dict ℕ ℕ) (names : Dict ℕ String) (heads : Dict ℕ ℕ)
      → diff_dynasty_splendor cid c r r h2d names heads date ≡ []
  unfolding diff_dynasty_splendor
  idle_splendor r h2d names heads = ground arith

  idle_contract_event :
      (k : Dict ℕ ContractSnapshot) (id : ℕ) → contract_event cid k k date id ≡ none
  unfolding contract_event
  idle_contract_event k id = ground arith

  idle_contract_events :
      (k : Dict ℕ ContractSnapshot) (ids : List ℕ)
      → filter_map (contract_event cid k k date) ids ≡ []
  idle_contract_events k ids =
      filter_map-none (contract_event cid k k date) ids (idle_contract_event k)

  idle_contracts :
      (k : Dict ℕ ContractSnapshot) (i : Dict ℕ (List ℕ)) → diff_contracts cid c k k i i date ≡ []
  unfolding diff_contracts
  idle_contracts k i =
      ground (arith, idle_contract_events k (sorted (get_or cid [] i ++ get_or cid [] i)))

  idle_domicile :
      (d : Dict ℕ DomicileSnapshot) (i : Dict ℕ ℕ) → diff_domicile cid c d d i i date ≡ []
  unfolding diff_domicile
  idle_domicile d i = ground arith

  idle_constructions :
      (f : Dict Slot ConstructionSnapshot) (i : Dict ℕ (List Slot)) (b : Dict Slot String)
      → diff_constructions cid c f i i b date ≡ []
  unfolding diff_constructions sorted
  idle_constructions f i b = rw (difference_self (get_or cid [] i)) (ground arith)

idle_streams :
    (strip : Option String → Option String) (cid : ℕ) (c : CharacterSnapshot) (s : SaveSnapshot)
    (date : String)
    → flat_map (λ differ. differ cid c s s date) (stream_differs strip) ≡ []
unfolding stream_differs
idle_streams strip cid c s date = simp (
  idle_set_differ, idle_wars, idle_legacies, idle_splendor, idle_contracts, idle_domicile,
  idle_constructions,
)

idle_titles : (cid : ℕ) (s : SaveSnapshot) (date : String) → diff_titles cid s s date ≡ ok []
unfolding diff_titles sorted gained_events dropped_events
idle_titles cid s date = rw (difference_self (held_titles cid s)) (ground arith)

module _ (strip : Option String → Option String) (s : SaveSnapshot)
    (tracked : Option (List ℕ)) where
  idle_pair : (cid : ℕ) (c : CharacterSnapshot) → pair_events strip s s tracked cid c c ≡ ok []
  unfolding pair_events
  idle_pair cid c = simp (
    idle_titles, idle_one_character, idle_streams, idle_traits, idle_concubines, idle_modifiers,
    idle_perks, idle_lifestyle_commits, idle_miscarriage, idle_state_changes,
  )

  idle_character :
      (cid : ℕ) (c : Option CharacterSnapshot) → character_events strip s s tracked cid c c ≡ ok []
  unfolding character_events
  idle_character cid none = refl
  idle_character cid (some c) = idle_pair cid c

  idle_ids : (ids : List ℕ) → ids_events strip s s tracked ids ≡ ok []
  unfolding ids_events id_events
  idle_ids [] = refl
  idle_ids (cid ∷ ids) = rw (idle_character cid (get cid s.characters)) (rw (idle_ids ids))

  -- The diff of a snapshot with itself succeeds and is empty, under every tracked filter.
  pub diff_snapshots_self : diff_snapshots strip s s tracked ≡ ok []
  unfolding diff_snapshots diff_over sort_by
  diff_snapshots_self =
      rw (idle_ids (all_ids s s tracked)) (ground (arith, ≡?_refl s.playthrough_id))
