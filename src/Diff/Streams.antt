-- ===== src/Diff/Streams.antt =====
-- save/diff.py: the streams over contracts, domiciles and constructions, and the list
-- `STREAM_DIFFERS`.
use ck3_llm_chronicler.Base.{
  ℕ, String, List, [], ◌∷◌, ◌++◌, Option, none, some, if◌then◌else◌, ◌==◌, ◌≡?◌, nat_order,
  text_order, pair_order, Dict, get, get_or, difference, sorted, same_option, filter_map,
}
use ck3_llm_chronicler.Snapshot.{
  CharacterSnapshot, ContractSnapshot, DomicileSnapshot, ConstructionSnapshot, Slot,
}
use ck3_llm_chronicler.Events.{
  Outcome, completed, invalidated, contract_completed, domicile_moved, building_completed,
}
use ck3_llm_chronicler.Diff.Types.{DiffEvent, diff_event, option_bind}
use ck3_llm_chronicler.Diff.SetDiff.{
  StreamDiffer, make_set_differ, alliances_spec, artifacts_spec, epidemics_spec, activities_spec,
  inspirations_spec, court_positions_spec,
}
use ck3_llm_chronicler.Diff.Wars.{diff_wars}
use ck3_llm_chronicler.Diff.Dynasties.{diff_dynasty_legacies, diff_dynasty_splendor}

-- `status in _CONTRACT_TERMINAL_STATUSES`, as the outcome that the status names
unfoldable pub terminal_outcome : String → Option Outcome
terminal_outcome status =
    if status ≡? "completed"
    then some completed
    else if status ≡? "invalidated"
    then some invalidated
    else none

unfoldable pub contract_event :
    ℕ → Dict ℕ ContractSnapshot → Dict ℕ ContractSnapshot → String → ℕ → Option DiffEvent
contract_event ck3_id prev_contracts curr_contracts date contract_id =
    let was_terminal =
      option_bind (get contract_id prev_contracts)
        (λ prev_snap. terminal_outcome prev_snap.status) in
    option_bind (get contract_id curr_contracts) (λ curr_snap.
      option_bind (terminal_outcome curr_snap.status) (λ outcome. elim was_terminal [
        | some before ↦ none
        | none ↦ some (
            diff_event date ck3_id
              (contract_completed (record {
                contract_type = curr_snap.contract_type;
                name = curr_snap.name;
                tier = curr_snap.tier;
                employer_id = curr_snap.employer_id;
                location_province_id = curr_snap.location_province_id;
                outcome = outcome;
                acceptance_date = curr_snap.acceptance_date;
                completion_date = curr_snap.completion_date;
              }))
              [])
      ]))

unfoldable pub diff_contracts :
    ℕ
    → CharacterSnapshot
    → Dict ℕ ContractSnapshot
    → Dict ℕ ContractSnapshot
    → Dict ℕ (List ℕ)
    → Dict ℕ (List ℕ)
    → String
    → List DiffEvent
diff_contracts ck3_id char prev_contracts curr_contracts prev_char_to_contracts
      curr_char_to_contracts date =
    let prev_ids = get_or ck3_id [] prev_char_to_contracts in
    let curr_ids = get_or ck3_id [] curr_char_to_contracts in
    if char.is_dead
    then []
    else filter_map (contract_event ck3_id prev_contracts curr_contracts date)
        (sorted (prev_ids ++ curr_ids))

-- The move of a domicile whose two provinces are known and differ.
domicile_event :
    ℕ → String → DomicileSnapshot → DomicileSnapshot → Option ℕ → Option ℕ → List DiffEvent
domicile_event ck3_id date prev_dom curr_dom none to = []
domicile_event ck3_id date prev_dom curr_dom (some from) none = []
domicile_event ck3_id date prev_dom curr_dom (some from) (some to) =
    if from == to
    then []
    else diff_event date ck3_id
        (domicile_moved (record {
          domicile_id = curr_dom.domicile_id;
          domicile_type = curr_dom.domicile_type;
          from_province_id = some from;
          to_province_id = some to;
        }))
        []
      ∷ []

domiciles_event : ℕ → String → Option DomicileSnapshot → Option DomicileSnapshot → List DiffEvent
unfolding domicile_event
domiciles_event ck3_id date none curr_dom = []
domiciles_event ck3_id date (some prev_dom) none = []
domiciles_event ck3_id date (some prev_dom) (some curr_dom) =
    domicile_event ck3_id date prev_dom curr_dom prev_dom.province_id curr_dom.province_id

unfoldable pub diff_domicile :
    ℕ
    → CharacterSnapshot
    → Dict ℕ DomicileSnapshot
    → Dict ℕ DomicileSnapshot
    → Dict ℕ ℕ
    → Dict ℕ ℕ
    → String
    → List DiffEvent
unfolding domiciles_event
diff_domicile ck3_id char prev_domiciles curr_domiciles prev_char_to_domicile curr_char_to_domicile
      date =
    if char.is_dead
    then []
    else domiciles_event ck3_id date
        (option_bind (get ck3_id prev_char_to_domicile) (λ did. get did prev_domiciles))
        (option_bind (get ck3_id curr_char_to_domicile) (λ did. get did curr_domiciles))

unfoldable pub construction_event :
    ℕ → Dict Slot ConstructionSnapshot → Dict Slot String → String → Slot → Option DiffEvent
construction_event ck3_id prev_in_flight curr_buildings_by_slot date key =
    option_bind (get key prev_in_flight) (λ cons.
      if same_option (get key curr_buildings_by_slot) (some cons.building)
      then some (
          diff_event date ck3_id
            (building_completed (record {
              building = cons.building;
              province_id = cons.province_id;
              slot_index = cons.slot_index;
              start_date = cons.start_date;
            }))
            [])
      else none)

unfoldable pub diff_constructions :
    ℕ
    → CharacterSnapshot
    → Dict Slot ConstructionSnapshot
    → Dict ℕ (List Slot)
    → Dict ℕ (List Slot)
    → Dict Slot String
    → String
    → List DiffEvent
diff_constructions ck3_id char prev_in_flight prev_char_to_cons curr_char_to_cons
      curr_buildings_by_slot date =
    if char.is_dead
    then []
    else filter_map (construction_event ck3_id prev_in_flight curr_buildings_by_slot date) (
        sorted
          (difference (get_or ck3_id [] prev_char_to_cons) (get_or ck3_id [] curr_char_to_cons)))

-- `STREAM_DIFFERS`, in dispatch order.
unfoldable pub stream_differs : (Option String → Option String) → List StreamDiffer
stream_differs strip =
    make_set_differ alliances_spec
    ∷ (λ cid c prev curr date.
        diff_wars strip cid c prev.wars curr.wars prev.character_to_wars curr.character_to_wars
          date)
    ∷ make_set_differ artifacts_spec
    ∷ (λ cid c prev curr date.
        diff_dynasty_legacies cid c prev.dynasty_perks curr.dynasty_perks curr.house_to_dynasty
          curr.dynasties_lookup date)
    ∷ (λ cid c prev curr date.
        diff_dynasty_splendor cid c prev.dynasty_renown curr.dynasty_renown curr.house_to_dynasty
          curr.dynasties_lookup curr.dynasty_heads date)
    ∷ make_set_differ epidemics_spec
    ∷ make_set_differ activities_spec
    ∷ make_set_differ inspirations_spec
    ∷ (λ cid c prev curr date.
        diff_contracts cid c prev.task_contracts curr.task_contracts prev.character_to_contracts
          curr.character_to_contracts date)
    ∷ make_set_differ court_positions_spec
    ∷ (λ cid c prev curr date.
        diff_domicile cid c prev.domiciles curr.domiciles prev.character_to_domicile
          curr.character_to_domicile date)
    ∷ (λ cid c prev curr date.
        diff_constructions cid c prev.in_flight_constructions prev.character_to_constructions
          curr.character_to_constructions curr.holding_buildings_by_slot date)
    ∷ []
