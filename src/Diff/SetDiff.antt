-- ===== src/Diff/SetDiff.antt =====
-- save/diff.py: `SetDiffSpec`, `make_set_differ` and its six streams.
use ck3_llm_chronicler.Base.{
  ℕ, String, List, [], ◌∷◌, ◌++◌, Option, none, some, if◌then◌else◌, nat_order, Dict, get, get_or,
  difference, sorted, same_set, same_option, filter_map,
}
use ck3_llm_chronicler.Snapshot.{
  CharacterSnapshot, SaveSnapshot, ArtifactSnapshot, CourtPositionSnapshot,
}
use ck3_llm_chronicler.Events.{
  alliance_formed, alliance_broken, artifact_acquired, artifact_lost, epidemic_outbreak,
  activity_completed, inspiration_sponsored, camp_companion_joined, camp_companion_left,
  ArtifactPayload, CampCompanionPayload, host, attendee,
}
use ck3_llm_chronicler.Diff.Types.{DiffEvent, diff_event, option_map, option_bind}

-- (cid, char, prev, curr, date) to events
abbrev pub StreamDiffer : Type 0
StreamDiffer = ℕ → CharacterSnapshot → SaveSnapshot → SaveSnapshot → String → List DiffEvent

-- (cid, element id, prev, curr, date) to an event, or none to skip the element
abbrev pub SetDiffBuilder : Type 0
SetDiffBuilder = ℕ → ℕ → SaveSnapshot → SaveSnapshot → String → Option DiffEvent

pub record SetDiffSpec : Type 0 where
  pub name : String
  pub index : SaveSnapshot → Dict ℕ (List ℕ)
  pub on_added : Option SetDiffBuilder
  pub on_removed : Option SetDiffBuilder

-- The events of one transition, for the ids in ascending order.
unfoldable pub run_builder :
    Option SetDiffBuilder → ℕ → List ℕ → SaveSnapshot → SaveSnapshot → String → List DiffEvent
run_builder none cid ids prev curr date = []
run_builder (some build) cid ids prev curr date =
    filter_map (λ eid. build cid eid prev curr date) ids

unfoldable pub make_set_differ : SetDiffSpec → StreamDiffer
make_set_differ spec cid char prev curr date =
    let prev_set = get_or cid [] (spec.index prev) in
    let curr_set = get_or cid [] (spec.index curr) in
    if char.is_dead
    then []
    else if same_set prev_set curr_set
    then []
    else run_builder spec.on_added cid (sorted (difference curr_set prev_set)) prev curr date
      ++ run_builder spec.on_removed cid (sorted (difference prev_set curr_set)) prev curr date

unfoldable pub alliance_added : SetDiffBuilder
alliance_added cid ally_id prev curr date = some (
    diff_event date cid (alliance_formed (record { ally_character_id = ally_id }))
      (("ally", ally_id) ∷ []))

unfoldable pub alliance_removed : SetDiffBuilder
alliance_removed cid ally_id prev curr date = some (
    diff_event date cid (alliance_broken (record { ally_character_id = ally_id }))
      (("former_ally", ally_id) ∷ []))

abbrev pub alliances_spec : SetDiffSpec
alliances_spec = record {
  name = "alliances";
  index = λ s. s.alliances;
  on_added = some alliance_added;
  on_removed = some alliance_removed;
}

abbrev artifact_payload : ℕ → ArtifactSnapshot → ArtifactPayload
artifact_payload art_id art = record {
  artifact_id = art_id;
  name = art.name;
  type = art.type;
  rarity = art.rarity;
}

unfoldable pub artifact_added : SetDiffBuilder
artifact_added cid art_id prev curr date =
    option_map (λ art. diff_event date cid (artifact_acquired (artifact_payload art_id art)) [])
      (get art_id curr.artifacts)

unfoldable pub artifact_removed : SetDiffBuilder
artifact_removed cid art_id prev curr date =
    option_map (λ art. diff_event date cid (artifact_lost (artifact_payload art_id art)) [])
      (elim (get art_id prev.artifacts) [ some art ↦ some art | none ↦ get art_id curr.artifacts ])

abbrev pub artifacts_spec : SetDiffSpec
artifacts_spec = record {
  name = "artifacts";
  index = λ s. s.character_to_artifacts;
  on_added = some artifact_added;
  on_removed = some artifact_removed;
}

unfoldable pub epidemic_added : SetDiffBuilder
epidemic_added cid ep_id prev curr date =
    option_map
      (λ ep.
        diff_event date cid
          (epidemic_outbreak (record {
            epidemic_id = ep.epidemic_id;
            epidemic_type = ep.epidemic_type;
            name = ep.name;
            intensity = ep.intensity;
            start_date = ep.creation_date;
            num_infected_provinces = ep.num_infected_provinces;
            num_character_deaths = ep.num_character_deaths;
          }))
          [])
      (get ep_id curr.epidemics)

abbrev pub epidemics_spec : SetDiffSpec
epidemics_spec = record {
  name = "epidemics";
  index = λ s. s.character_to_epidemics;
  on_added = some epidemic_added;
  on_removed = none;
}

unfoldable pub activity_removed : SetDiffBuilder
activity_removed cid activity_id prev curr date =
    option_map
      (λ snap.
        diff_event date cid
          (activity_completed (record {
            activity_id = snap.activity_id;
            activity_type = snap.activity_type;
            role = if same_option snap.host_id (some cid) then host else attendee;
            host_id = snap.host_id;
            start_province_id = snap.start_province_id;
            start_date = snap.active_start_date;
          }))
          [])
      (get activity_id prev.activities)

abbrev pub activities_spec : SetDiffSpec
activities_spec = record {
  name = "activities";
  index = λ s. s.character_to_activities;
  on_added = none;
  on_removed = some activity_removed;
}

unfoldable pub inspiration_added : SetDiffBuilder
inspiration_added cid inspiration_id prev curr date =
    option_map
      (λ snap.
        diff_event date cid
          (inspiration_sponsored (record {
            inspiration_id = snap.inspiration_id;
            inspiration_type = snap.inspiration_type;
            artisan_character_id = snap.artisan_character_id;
            total_cost = some snap.total_cost;
          }))
          [])
      (get inspiration_id curr.inspirations)

abbrev pub inspirations_spec : SetDiffSpec
inspirations_spec = record {
  name = "inspirations";
  index = λ s. s.character_to_sponsored_inspirations;
  on_added = some inspiration_added;
  on_removed = none;
}

unfoldable pub resolve_employee_name : Option ℕ → Dict ℕ CharacterSnapshot → Option String
resolve_employee_name employee_id characters =
    option_bind employee_id λ id. option_bind (get id characters) λ char. char.first_name

abbrev companion_payload : CourtPositionSnapshot → SaveSnapshot → CampCompanionPayload
companion_payload snap curr = record {
  position_id = snap.position_id;
  court_position = snap.court_position;
  employee_id = snap.employee_id;
  employee_name = resolve_employee_name snap.employee_id curr.characters;
  hire_date = snap.hire_date;
}

unfoldable pub court_position_added : SetDiffBuilder
court_position_added cid pid prev curr date =
    option_map
      (λ snap. diff_event date cid (camp_companion_joined (companion_payload snap curr)) [])
      (get pid curr.court_positions)

-- The name of one who left is still looked up in `curr`.
unfoldable pub court_position_removed : SetDiffBuilder
court_position_removed cid pid prev curr date =
    option_map (λ snap. diff_event date cid (camp_companion_left (companion_payload snap curr)) [])
      (get pid prev.court_positions)

abbrev pub court_positions_spec : SetDiffSpec
court_positions_spec = record {
  name = "court_positions";
  index = λ s. s.character_to_court_positions;
  on_added = some court_position_added;
  on_removed = some court_position_removed;
}
