-- ===== src/Snapshot.antt =====
-- src/chronicler/save/snapshot.py: the data that one save is parsed into.
-- Ids are natural numbers. A `frozenset` is a list of its elements and a `dict` is the list of its
-- items. Left out are the fields that hold floats or raw save trees and that no modelled operation
-- reads: the currencies of a character, `dynasties_renown`, `tracked_raw_records`, `tracked_coa`.
use ck3_llm_chronicler.Base.{ℕ, String, Bool, List, Option, Dict}

pub record MemorySnapshot : Type 0 where
  pub memory_id : ℕ
  pub memory_type : String
  pub creation_date : String
  pub end_date : Option String
  pub participants : List (String × ℕ)

pub record FamilySnapshot : Type 0 where
  pub mother : Option ℕ
  pub father : Option ℕ
  pub primary_spouse : Option ℕ
  pub spouses : List ℕ
  pub former_spouses : List ℕ
  pub concubinist : Option ℕ
  pub concubines : List ℕ
  pub children : List ℕ
  pub betrothed : List ℕ

pub record CharacterSnapshot : Type 0 where
  pub ck3_id : ℕ
  pub first_name : Option String
  pub nickname : Option String
  pub is_dead : Bool
  pub female : Bool
  pub birth_date : Option String
  pub death_date : Option String
  pub culture_id : Option ℕ
  pub faith_id : Option ℕ
  pub dynasty_house_id : Option ℕ
  pub ethnicity : Option String
  pub traits : List ℕ
  pub family : FamilySnapshot
  pub location_id : Option ℕ
  pub memories : List MemorySnapshot
  pub death_cause : Option String
  pub death_killer : Option ℕ
  pub government : Option String
  pub decisions_taken : List (String × String)
  pub modifiers : List String
  pub perks : List String

pub record ArtifactSnapshot : Type 0 where
  pub artifact_id : ℕ
  pub name : Option String
  pub type : Option String
  pub rarity : Option String
  pub owner_id : Option ℕ

pub record ConstructionSnapshot : Type 0 where
  pub province_id : ℕ
  pub slot_index : ℕ
  pub building : String
  pub start_date : Option String
  pub character_id : Option ℕ

pub record EpidemicSnapshot : Type 0 where
  pub epidemic_id : ℕ
  pub epidemic_type : Option String
  pub name : Option String
  pub intensity : Option String
  pub creation_date : Option String
  pub start_province : Option ℕ
  pub num_infected_provinces : ℕ
  pub num_infected_characters : ℕ
  pub num_character_deaths : ℕ

pub record ActivitySnapshot : Type 0 where
  pub activity_id : ℕ
  pub activity_type : Option String
  pub host_id : Option ℕ
  pub creation_date : Option String
  pub active_start_date : Option String
  pub start_province_id : Option ℕ
  pub attendees : List ℕ

pub record InspirationSnapshot : Type 0 where
  pub inspiration_id : ℕ
  pub inspiration_type : Option String
  pub sponsored : Option String
  pub total_cost : ℕ
  pub progress : ℕ
  pub artisan_character_id : Option ℕ

pub record DomicileSnapshot : Type 0 where
  pub domicile_id : ℕ
  pub owner_title_id : Option ℕ
  pub domicile_type : Option String
  pub province_id : Option ℕ

pub record CourtPositionSnapshot : Type 0 where
  pub position_id : ℕ
  pub court_position : Option String
  pub employee_id : Option ℕ
  pub employer_id : Option ℕ
  pub hire_date : Option String

pub record ContractSnapshot : Type 0 where
  pub contract_id : ℕ
  pub contract_type : Option String
  pub name : Option String
  pub tier : Option ℕ
  pub employer_id : Option ℕ
  pub owner_id : Option ℕ
  pub location_province_id : Option ℕ
  pub status : String
  pub acceptance_date : Option String
  pub completion_date : Option String

pub record WarSnapshot : Type 0 where
  pub war_id : ℕ
  pub name : Option String
  pub start_date : Option String
  pub casus_belli_type : Option String
  pub targeted_titles : List ℕ
  pub primary_attacker_id : Option ℕ
  pub primary_defender_id : Option ℕ
  pub claimant_id : Option ℕ
  pub attacker_participants : List ℕ
  pub defender_participants : List ℕ

pub record TitleSnapshot : Type 0 where
  pub title_id : ℕ
  pub key : String
  pub name : Option String
  pub tier : String
  pub holder_id : Option ℕ
  pub de_jure_liege_id : Option ℕ

-- A (province, slot) pair.
abbrev pub Slot : Type 0
Slot = ℕ × ℕ

-- `dynasty_renown` counts hundred-thousandths, the step of the engine's fixed-point numbers.
pub record SaveSnapshot : Type 0 where
  pub playthrough_id : String
  pub ck3_version : String
  pub bookmark_date : Option String
  pub current_date : String
  pub player_character_id : Option ℕ
  pub characters : Dict ℕ CharacterSnapshot
  pub alliances : Dict ℕ (List ℕ)
  pub traits_lookup : List String
  pub houses_lookup : Dict ℕ String
  pub cultures_lookup : Dict ℕ String
  pub faiths_lookup : Dict ℕ String
  pub dynasties_lookup : Dict ℕ String
  pub house_to_dynasty : Dict ℕ ℕ
  pub titles : Dict ℕ TitleSnapshot
  pub title_holders : Dict ℕ (List ℕ)
  pub kingdoms_by_de_jure_empire : Dict ℕ (List ℕ)
  pub wars : Dict ℕ WarSnapshot
  pub character_to_wars : Dict ℕ (List ℕ)
  pub artifacts : Dict ℕ ArtifactSnapshot
  pub character_to_artifacts : Dict ℕ (List ℕ)
  pub dynasty_perks : Dict ℕ (List String)
  pub dynasty_renown : Dict ℕ ℕ
  pub dynasty_heads : Dict ℕ ℕ
  pub epidemics : Dict ℕ EpidemicSnapshot
  pub character_to_epidemics : Dict ℕ (List ℕ)
  pub in_flight_constructions : Dict Slot ConstructionSnapshot
  pub character_to_constructions : Dict ℕ (List Slot)
  pub holding_buildings_by_slot : Dict Slot String
  pub activities : Dict ℕ ActivitySnapshot
  pub character_to_activities : Dict ℕ (List ℕ)
  pub inspirations : Dict ℕ InspirationSnapshot
  pub character_to_sponsored_inspirations : Dict ℕ (List ℕ)
  pub task_contracts : Dict ℕ ContractSnapshot
  pub character_to_contracts : Dict ℕ (List ℕ)
  pub court_positions : Dict ℕ CourtPositionSnapshot
  pub character_to_court_positions : Dict ℕ (List ℕ)
  pub domiciles : Dict ℕ DomicileSnapshot
  pub character_to_domicile : Dict ℕ ℕ
