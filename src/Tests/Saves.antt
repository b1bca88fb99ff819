-- ===== src/Tests/Saves.antt =====
-- Two small saves of one campaign, a year apart, for the tests.
use ck3_llm_chronicler.Base.{ℕ, String, true, false, [], ◌∷◌, Option, none, some}
use ck3_llm_chronicler.Snapshot.{CharacterSnapshot, FamilySnapshot, SaveSnapshot, TitleSnapshot}

abbrev pub no_family : FamilySnapshot
no_family = record {
  mother = none;
  father = none;
  primary_spouse = none;
  spouses = [];
  former_spouses = [];
  concubinist = none;
  concubines = [];
  children = [];
  betrothed = [];
}

abbrev pub person : ℕ → String → CharacterSnapshot
person id name = record {
  ck3_id = id;
  first_name = some name;
  nickname = none;
  is_dead = false;
  female = false;
  birth_date = some "1040.5.6";
  death_date = none;
  culture_id = none;
  faith_id = none;
  dynasty_house_id = none;
  ethnicity = none;
  traits = [];
  family = no_family;
  location_id = none;
  memories = [];
  death_cause = none;
  death_killer = none;
  government = none;
  decisions_taken = [];
  modifiers = [];
  perks = [];
}

abbrev pub empty_save : String → SaveSnapshot
empty_save date = record {
  playthrough_id = "p1";
  ck3_version = "";
  bookmark_date = none;
  current_date = date;
  player_character_id = none;
  characters = [];
  alliances = [];
  traits_lookup = [];
  houses_lookup = [];
  cultures_lookup = [];
  faiths_lookup = [];
  dynasties_lookup = [];
  house_to_dynasty = [];
  titles = [];
  title_holders = [];
  kingdoms_by_de_jure_empire = [];
  wars = [];
  character_to_wars = [];
  artifacts = [];
  character_to_artifacts = [];
  dynasty_perks = [];
  dynasty_renown = [];
  dynasty_heads = [];
  epidemics = [];
  character_to_epidemics = [];
  in_flight_constructions = [];
  character_to_constructions = [];
  holding_buildings_by_slot = [];
  activities = [];
  character_to_activities = [];
  inspirations = [];
  character_to_sponsored_inspirations = [];
  task_contracts = [];
  character_to_contracts = [];
  court_positions = [];
  character_to_court_positions = [];
  domiciles = [];
  character_to_domicile = [];
}

abbrev pub title : ℕ → String → Option ℕ → TitleSnapshot
title id key holder = record {
  title_id = id;
  key = key;
  name = none;
  tier = "county";
  holder_id = holder;
  de_jure_liege_id = none;
}

abbrev pub ruler : CharacterSnapshot
ruler = record (person 1 "Matilda") { location_id = some 10 }

abbrev pub ruler_later : CharacterSnapshot
ruler_later = record (person 1 "Matilda") {
  location_id = some 11;
  family = record no_family { primary_spouse = some 2; spouses = 2 ∷ [] };
}

abbrev pub rival : CharacterSnapshot
rival = person 2 "Gilbert"

abbrev pub rival_later : CharacterSnapshot
rival_later = record (person 2 "Gilbert") { is_dead = true; death_date = some "1066.12.1" }

-- Character 1 holds county 7 and is allied with 2.
abbrev pub before : SaveSnapshot
before = record (empty_save "1066.1.1") {
  characters = (1, ruler) ∷ (2, rival) ∷ [];
  alliances = (1, 2 ∷ []) ∷ [];
  titles = (7, title 7 "c_kent" (some 1)) ∷ (8, title 8 "c_essex" (some 2)) ∷ [];
}

-- It has lost county 7, won county 8, and is allied with 3.
abbrev pub after : SaveSnapshot
after = record (empty_save "1067.1.1") {
  characters = (1, ruler_later) ∷ (2, rival_later) ∷ [];
  alliances = (1, 3 ∷ []) ∷ [];
  titles = (7, title 7 "c_kent" (some 2)) ∷ (8, title 8 "c_essex" (some 1)) ∷ [];
}

abbrev pub other_campaign : SaveSnapshot
other_campaign = record (empty_save "1067.1.1") { playthrough_id = "p2" }
