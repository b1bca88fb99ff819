-- ===== src/Parse/Tables.antt =====
-- src/chronicler/save/parse.py: the tables of a save that are indexed by character. A loop of the code
-- over a table is `build_table` with what the loop makes of one record.
use ck3_llm_chronicler.Base.{
  ℕ, String, Bool, true, false, not, ◌++◌, List, [], ◌∷◌, Option, none, some, ◌==◌, ◌≡?◌,
  if◌then◌else◌, text_order, any, filter_map,
}
use ck3_llm_chronicler.Snapshot.{
  ArtifactSnapshot, WarSnapshot, EpidemicSnapshot, ActivitySnapshot, ContractSnapshot,
  CourtPositionSnapshot,
}
use ck3_llm_chronicler.Parse.Json.{
  Value, null, bool, int, fixed, str, array, dict, Fields, field, as_fields, as_items, as_text,
  as_dict, int_field, ids_of, to_ids, coerce_int, opt_str, iter_db_records,
}
use ck3_llm_chronicler.Parse.Index.{Made, Tables, build_table}

abbrev pub or_zero : Option ℕ → ℕ
or_zero none = 0
or_zero (some n) = n

abbrev pub participant_of : Value → Option ℕ
participant_of entry = elim (as_dict entry) [ none ↦ none | some fs ↦ int_field "character" fs ]

unfoldable pub parse_war_side_participants : Value → List ℕ
unfolding field coerce_int
parse_war_side_participants side =
    filter_map participant_of (as_items (field "participants" (as_fields side)))

-- `int(x)` where `x` is an `int`, and a `bool` is one
abbrev pub int_of : Value → Option ℕ
int_of (int n) = some n
int_of (bool true) = some 1
int_of (bool false) = some 0
int_of null = none
int_of (fixed n) = none
int_of (str s) = none
int_of (array vs) = none
int_of (dict fs) = none

unfoldable pub make_war : ℕ → Fields → Made WarSnapshot
unfolding field opt_str coerce_int parse_war_side_participants
make_war wid raw =
    let attackers = parse_war_side_participants (field "attacker" raw) in
    let defenders = parse_war_side_participants (field "defender" raw) in
    let cb = as_fields (field "casus_belli" raw) in
    some (
      record {
        war_id = wid;
        name = opt_str raw "name";
        start_date = opt_str raw "start_date";
        casus_belli_type = as_text (field "type" cb);
        targeted_titles = filter_map int_of (as_items (field "targeted_titles" cb));
        primary_attacker_id = int_field "attacker" cb;
        primary_defender_id = int_field "defender" cb;
        claimant_id = int_field "claimant" cb;
        attacker_participants = attackers;
        defender_participants = defenders;
      },
      attackers ++ defenders,
    )

unfoldable pub parse_wars : Fields → Tables WarSnapshot
unfolding build_table iter_db_records make_war
parse_wars data_fields =
    build_table make_war (iter_db_records data_fields ("wars" ∷ "active_wars" ∷ []))

unfoldable pub make_epidemic : ℕ → Fields → Made EpidemicSnapshot
unfolding field opt_str coerce_int
make_epidemic eid raw = some (
  record {
    epidemic_id = eid;
    epidemic_type = opt_str raw "type";
    name = opt_str raw "name";
    intensity = opt_str raw "intensity";
    creation_date = opt_str raw "creation_date";
    start_province = int_field "start_province" raw;
    num_infected_provinces = or_zero (int_field "num_infected_provinces" raw);
    num_infected_characters = or_zero (int_field "num_infected_characters" raw);
    num_character_deaths = or_zero (int_field "num_character_deaths" raw);
  },
  ids_of (as_items (field "characters" raw)),
)

unfoldable pub parse_epidemics : Fields → Tables EpidemicSnapshot
unfolding build_table iter_db_records make_epidemic
parse_epidemics data_fields =
    build_table make_epidemic (iter_db_records data_fields ("epidemics" ∷ "database" ∷ []))

-- The province of the first phase.
abbrev pub first_province : List Value → Option ℕ
first_province [] = none
first_province (phase ∷ rest) = int_field "province" (as_fields phase)

unfoldable pub make_activity : ℕ → Fields → Made ActivitySnapshot
unfolding field opt_str coerce_int
make_activity aid raw =
    let host_id = int_field "host" raw in
    let attendees = ids_of (as_items (field "attending" raw)) in
    some (
      record {
        activity_id = aid;
        activity_type = opt_str raw "type";
        host_id = host_id;
        creation_date = opt_str raw "creation_date";
        active_start_date = opt_str raw "active_start_date";
        start_province_id = first_province (as_items (field "phases" raw));
        attendees = attendees;
      },
      to_ids host_id ++ attendees,
    )

unfoldable pub parse_activities : Fields → Tables ActivitySnapshot
unfolding build_table iter_db_records make_activity
parse_activities data_fields =
    build_table make_activity (iter_db_records data_fields ("activity_manager" ∷ "database" ∷ []))

-- A record without a status is skipped.
unfoldable pub make_contract : ℕ → Fields → Made ContractSnapshot
unfolding field opt_str coerce_int
make_contract cid raw = elim (opt_str raw "status") [
  | none ↦ none
  | some status ↦ some (
    record {
      contract_id = cid;
      contract_type = opt_str raw "type";
      name = opt_str raw "name";
      tier = int_field "tier" raw;
      employer_id = int_field "employer" raw;
      owner_id = int_field "owner" raw;
      location_province_id = int_field "location" raw;
      status = status;
      acceptance_date = opt_str raw "acceptance_date";
      completion_date = opt_str raw "completion_date";
    },
    to_ids (int_field "owner" raw),
  )
]

unfoldable pub parse_contracts : Fields → Tables ContractSnapshot
unfolding build_table iter_db_records make_contract
parse_contracts data_fields =
    build_table make_contract (iter_db_records data_fields ("task_contracts" ∷ "database" ∷ []))

-- A record without an employer is skipped.
unfoldable pub make_court_position : ℕ → Fields → Made CourtPositionSnapshot
unfolding field opt_str coerce_int
make_court_position pid raw = elim (int_field "employer" raw) [
  | none ↦ none
  | some employer ↦ some (
    record {
      position_id = pid;
      court_position = opt_str raw "court_position";
      employee_id = int_field "employee" raw;
      employer_id = some employer;
      hire_date = opt_str raw "hire_date";
    },
    employer ∷ [],
  )
]

unfoldable pub parse_court_positions : Fields → Tables CourtPositionSnapshot
unfolding build_table iter_db_records make_court_position
parse_court_positions data_fields =
    build_table make_court_position
      (iter_db_records data_fields ("court_positions" ∷ "database" ∷ []))

-- What `"\x15" not in raw` raises a `TypeError` on: a number that is not zero, or `True`.
abbrev pub is_no_container : Value → Bool
is_no_container (int n) = not (n == 0)
is_no_container (fixed n) = not (n == 0)
is_no_container (bool b) = b
is_no_container null = false
is_no_container (str s) = false
is_no_container (array vs) = false
is_no_container (dict fs) = false

module _ (strip_loca_markup : Option String → Option String) where
  -- The text of a name without its markup, where some is left.
  abbrev pub clean_name : Value → Option String
  clean_name (str s) = elim (strip_loca_markup (some s)) [
    | none ↦ none
    | some name ↦ if name ≡? "" then none else some name
  ]
  clean_name null = none
  clean_name (bool b) = none
  clean_name (int n) = none
  clean_name (fixed n) = none
  clean_name (array vs) = none
  clean_name (dict fs) = none

  unfoldable pub make_artifact : ℕ → Fields → Made ArtifactSnapshot
  unfolding field opt_str coerce_int
  make_artifact aid raw = some (
    record {
      artifact_id = aid;
      name = clean_name (field "name" raw);
      type = opt_str raw "type";
      rarity = opt_str raw "rarity";
      owner_id = int_field "owner" raw;
    },
    to_ids (int_field "owner" raw),
  )

  -- A name that is a number raises, and then nothing is returned.
  unfoldable pub parse_artifacts : Fields → Option (Tables ArtifactSnapshot)
  unfolding build_table iter_db_records make_artifact field
  parse_artifacts data_fields =
      let rows = iter_db_records data_fields ("artifacts" ∷ "artifacts" ∷ []) in
      if any rows (λ row. is_no_container (field "name" row.1))
      then none
      else some (build_table make_artifact rows)
