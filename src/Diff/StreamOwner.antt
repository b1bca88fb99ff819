-- ===== src/Diff/StreamOwner.antt =====
-- Whose events the streams of save/diff.py emit.
use ck3_llm_chronicler.Base.{
  ℕ, String, List, [], ◌∷◌, ◌++◌, Option, some, ◌≡◌, refl, arith, if◌then◌else◌, All, All-append,
  All-silent, All-map, All-filter_map, Dict, sorted, difference, same_set, Option-cases, inl, inr,
  nat_order, flat_map, get_or, filter_map,
}
use ck3_llm_chronicler.Snapshot.{
  CharacterSnapshot, SaveSnapshot, WarSnapshot, ContractSnapshot, ConstructionSnapshot,
  DomicileSnapshot, Slot,
}
use ck3_llm_chronicler.Diff.Types.{DiffEvent}
use ck3_llm_chronicler.Diff.SetDiff.{
  StreamDiffer, alliances_spec, artifacts_spec, epidemics_spec, activities_spec, inspirations_spec,
  court_positions_spec,
}
use ck3_llm_chronicler.Diff.Wars.{diff_wars, war_entered, war_exited}
use ck3_llm_chronicler.Diff.Dynasties.{dynasty_of, diff_dynasty_legacies, diff_dynasty_splendor}
use ck3_llm_chronicler.Diff.Streams.{
  diff_contracts, contract_event, diff_domicile, diff_constructions, construction_event,
  stream_differs,
}
use ck3_llm_chronicler.Diff.Owner.{Owned, option_map_owned}
use ck3_llm_chronicler.Diff.SetOwner.{
  IsOwnedBy, set_differ-Owned, alliance_added-Owned, alliance_removed-Owned, artifact_added-Owned,
  artifact_removed-Owned, epidemic_added-Owned, activity_removed-Owned, inspiration_added-Owned,
  court_position_added-Owned, court_position_removed-Owned,
}

module _ (strip : Option String → Option String) (cid : ℕ) (date : String) where
  war_entered-Owned :
      (pw cw : Dict ℕ WarSnapshot) (war_id : ℕ) (e : DiffEvent)
      → war_entered strip cid pw cw date war_id ≡ some e
      → e.event.c ≡ cid
  unfolding war_entered
  war_entered-Owned pw cw war_id e h = option_map_owned _ _ e (λ k. refl) h

  war_exited-Owned :
      (pw cw : Dict ℕ WarSnapshot) (war_id : ℕ) (e : DiffEvent)
      → war_exited strip cid pw cw date war_id ≡ some e
      → e.event.c ≡ cid
  unfolding war_exited
  war_exited-Owned pw cw war_id e h = option_map_owned _ _ e (λ k. refl) h

  wars-Owned :
      (char : CharacterSnapshot) (pw cw : Dict ℕ WarSnapshot) (pi ci : Dict ℕ (List ℕ))
      → Owned cid (diff_wars strip cid char pw cw pi ci date)
  unfolding diff_wars
  wars-Owned char pw cw pi ci =
      let ps = get_or cid [] pi in
      let cs = get_or cid [] ci in
      let entered = filter_map (war_entered strip cid pw cw date) (sorted (difference cs ps)) in
      let exited = filter_map (war_exited strip cid pw cw date) (sorted (difference ps cs)) in
      All-silent (IsOwnedBy cid) char.is_dead (if same_set ps cs then [] else entered ++ exited) (
        All-silent (IsOwnedBy cid) (same_set ps cs) (entered ++ exited) (
          All-append (IsOwnedBy cid) entered exited
            (All-filter_map (IsOwnedBy cid) (war_entered strip cid pw cw date) _
              (war_entered-Owned pw cw))
            (All-filter_map (IsOwnedBy cid) (war_exited strip cid pw cw date) _
              (war_exited-Owned pw cw))))

module _ (cid : ℕ) (char : CharacterSnapshot) (date : String) where
  legacies-Owned :
      (pp cp : Dict ℕ (List String)) (h2d : Dict ℕ ℕ) (names : Dict ℕ String)
      → Owned cid (diff_dynasty_legacies cid char pp cp h2d names date)
  unfolding diff_dynasty_legacies
  legacies-Owned pp cp h2d names = elim (Option-cases (dynasty_of char h2d)) [
    | inl e ↦ All-silent (IsOwnedBy cid) char.is_dead _ (rw e tt)
    | inr (d, e) ↦
        All-silent (IsOwnedBy cid) char.is_dead _ (rw e (All-map (IsOwnedBy cid) _ _ (λ k. refl)))
  ]

  splendor-Owned :
      (pr cr h2d : Dict ℕ ℕ) (names : Dict ℕ String) (heads : Dict ℕ ℕ)
      → Owned cid (diff_dynasty_splendor cid char pr cr h2d names heads date)
  unfolding diff_dynasty_splendor
  splendor-Owned pr cr h2d names heads = ground arith

  contract_event-Owned :
      (pc cc' : Dict ℕ ContractSnapshot) (id : ℕ) (e : DiffEvent)
      → contract_event cid pc cc' date id ≡ some e
      → e.event.c ≡ cid
  unfolding contract_event
  contract_event-Owned pc cc' id e h = ground arith

  contracts-Owned :
      (pc cc' : Dict ℕ ContractSnapshot) (pi ci : Dict ℕ (List ℕ))
      → Owned cid (diff_contracts cid char pc cc' pi ci date)
  unfolding diff_contracts
  contracts-Owned pc cc' pi ci = All-silent (IsOwnedBy cid) char.is_dead _ (
      All-filter_map (IsOwnedBy cid) (contract_event cid pc cc' date) _
        (contract_event-Owned pc cc'))

  domicile-Owned :
      (pd cd : Dict ℕ DomicileSnapshot) (pi ci : Dict ℕ ℕ)
      → Owned cid (diff_domicile cid char pd cd pi ci date)
  unfolding diff_domicile
  domicile-Owned pd cd pi ci = ground arith

  construction_event-Owned :
      (pf : Dict Slot ConstructionSnapshot) (slots : Dict Slot String) (key : Slot) (e : DiffEvent)
      → construction_event cid pf slots date key ≡ some e
      → e.event.c ≡ cid
  unfolding construction_event
  construction_event-Owned pf slots key e h = ground arith

  constructions-Owned :
      (pf : Dict Slot ConstructionSnapshot) (pi ci : Dict ℕ (List Slot)) (slots : Dict Slot String)
      → Owned cid (diff_constructions cid char pf pi ci slots date)
  unfolding diff_constructions
  constructions-Owned pf pi ci slots = All-silent (IsOwnedBy cid) char.is_dead _ (
      All-filter_map (IsOwnedBy cid) (construction_event cid pf slots date) _
        (construction_event-Owned pf slots))

-- A stream that only ever emits events of the character that it is called for.
abbrev OwnedDiffer : StreamDiffer → Type 0
OwnedDiffer differ =
    (cid : ℕ) (c : CharacterSnapshot) (prev curr : SaveSnapshot) (date : String)
    → Owned cid (differ cid c prev curr date)

flat_map-Owned :
    (differs : List StreamDiffer)
    → All OwnedDiffer differs
    → (cid : ℕ) (c : CharacterSnapshot) (prev curr : SaveSnapshot) (date : String)
    → Owned cid (flat_map (λ differ. differ cid c prev curr date) differs)
flat_map-Owned [] h cid c prev curr date = tt
flat_map-Owned (differ ∷ rest) (h, k) cid c prev curr date =
    All-append (IsOwnedBy cid) (differ cid c prev curr date)
      (flat_map (λ d. d cid c prev curr date) rest) (h cid c prev curr date)
      (flat_map-Owned rest k cid c prev curr date)

stream_differs-Owned :
    (strip : Option String → Option String) → All OwnedDiffer (stream_differs strip)
unfolding stream_differs
stream_differs-Owned strip = (
  set_differ-Owned alliances_spec alliance_added-Owned alliance_removed-Owned,
  (
    (λ cid c p q d. wars-Owned strip cid d c p.wars q.wars p.character_to_wars q.character_to_wars),
    (
      set_differ-Owned artifacts_spec artifact_added-Owned artifact_removed-Owned,
      (
        (λ cid c p q d.
            legacies-Owned cid c d p.dynasty_perks q.dynasty_perks q.house_to_dynasty
              q.dynasties_lookup),
        (
          (λ cid c p q d.
              splendor-Owned cid c d p.dynasty_renown q.dynasty_renown q.house_to_dynasty
                q.dynasties_lookup q.dynasty_heads),
          (
            set_differ-Owned epidemics_spec epidemic_added-Owned tt,
            (
              set_differ-Owned activities_spec tt activity_removed-Owned,
              (
                set_differ-Owned inspirations_spec inspiration_added-Owned tt,
                (
                  (λ cid c p q d.
                      contracts-Owned cid c d p.task_contracts q.task_contracts
                        p.character_to_contracts q.character_to_contracts),
                  (
                    set_differ-Owned court_positions_spec court_position_added-Owned
                        court_position_removed-Owned,
                    (
                      (λ cid c p q d.
                          domicile-Owned cid c d p.domiciles q.domiciles p.character_to_domicile
                            q.character_to_domicile),
                      (
                        (λ cid c p q d.
                            constructions-Owned cid c d p.in_flight_constructions
                              p.character_to_constructions q.character_to_constructions
                              q.holding_buildings_by_slot),
                        tt,
                      ),
                    ),
                  ),
                ),
              ),
            ),
          ),
        ),
      ),
    ),
  ),
)

-- All the streams together.
pub streams-Owned :
    (strip : Option String → Option String) (cid : ℕ) (c : CharacterSnapshot)
    (prev curr : SaveSnapshot) (date : String)
    → Owned cid (flat_map (λ differ. differ cid c prev curr date) (stream_differs strip))
streams-Owned strip = flat_map-Owned (stream_differs strip) (stream_differs-Owned strip)
