-- ===== src/Events/Payloads.antt =====
-- src/chronicler/schema/events.py: the payload of each event.
use ck3_llm_chronicler.Base.{ℕ, String, List, Option, Dict}

-- `Literal["attacker", "defender"]`
pub data Side : Type 0 where
  attacker defender : Side

-- `Literal["completed", "invalidated"]`
pub data Outcome : Type 0 where
  completed invalidated : Outcome

-- `Literal["host", "attendee"]`
pub data Role : Type 0 where
  host attendee : Role

pub record DeathPayload : Type 0 where
  pub killer : Option ℕ
  pub cause : Option String
  pub death_age : Option ℕ

pub record MarriagePayload : Type 0 where
  pub spouse_character_id : Option ℕ

pub record DivorcePayload : Type 0 where
  pub former_spouse_character_id : Option ℕ

pub record TravelPayload : Type 0 where
  pub from_location : Option ℕ
  pub to_location : Option ℕ

pub record TraitPayload : Type 0 where
  pub trait_id : ℕ
  pub trait_name : Option String

pub record GovernmentChangedPayload : Type 0 where
  pub previous_government : String
  pub new_government : String

pub record AlliancePayload : Type 0 where
  pub ally_character_id : ℕ

pub record NicknamePayload : Type 0 where
  pub from_nickname : Option String
  pub to_nickname : Option String

pub record TitleAcquiredPayload : Type 0 where
  pub title_id : ℕ
  pub title_key : String
  pub title_name : Option String
  pub tier : Option String
  pub from_holder_id : Option ℕ

pub record TitleRelinquishedPayload : Type 0 where
  pub title_id : ℕ
  pub title_key : String
  pub title_name : Option String
  pub tier : Option String
  pub to_holder_id : Option ℕ

pub record TitleCreatedPayload : Type 0 where
  pub title_id : ℕ
  pub title_key : String
  pub title_name : Option String
  pub tier : Option String

pub record HouseChangePayload : Type 0 where
  pub from_house_id : Option ℕ
  pub from_house_name : Option String
  pub to_house_id : Option ℕ
  pub to_house_name : Option String

pub record CultureChangePayload : Type 0 where
  pub from_culture_id : Option ℕ
  pub from_culture_name : Option String
  pub to_culture_id : Option ℕ
  pub to_culture_name : Option String

pub record FaithChangePayload : Type 0 where
  pub from_faith_id : Option ℕ
  pub from_faith_name : Option String
  pub to_faith_id : Option ℕ
  pub to_faith_name : Option String

pub record WarSidePayload : Type 0 where
  pub war_id : ℕ
  pub war_name : Option String
  pub casus_belli_type : Option String
  pub targeted_titles : List ℕ
  pub side : Option Side
  pub primary_attacker_id : Option ℕ
  pub primary_defender_id : Option ℕ
  pub claimant_id : Option ℕ

pub record ArtifactPayload : Type 0 where
  pub artifact_id : ℕ
  pub name : Option String
  pub type : Option String
  pub rarity : Option String

pub record DynastyLegacyPayload : Type 0 where
  pub dynasty_id : ℕ
  pub dynasty_name : Option String
  pub legacy_key : String

pub record SplendorPayload : Type 0 where
  pub dynasty_id : ℕ
  pub dynasty_name : Option String
  pub dynasty_head_id : Option ℕ
  pub old_tier : ℕ
  pub new_tier : ℕ
  pub total_renown_at_change : ℕ

pub record ConcubinePayload : Type 0 where
  pub concubine_id : ℕ
  pub concubine_name : Option String

pub record ModifierPayload : Type 0 where
  pub modifier_key : String

pub record PerkPayload : Type 0 where
  pub perk_key : String

pub record LifestyleCommittedPayload : Type 0 where
  pub lifestyle_key : String
  pub first_perk_key : String

pub record ContractPayload : Type 0 where
  pub contract_type : Option String
  pub name : Option String
  pub tier : Option ℕ
  pub employer_id : Option ℕ
  pub location_province_id : Option ℕ
  pub outcome : Outcome
  pub acceptance_date : Option String
  pub completion_date : Option String

pub record CampCompanionPayload : Type 0 where
  pub position_id : ℕ
  pub court_position : Option String
  pub employee_id : Option ℕ
  pub employee_name : Option String
  pub hire_date : Option String

pub record DomicilePayload : Type 0 where
  pub domicile_id : ℕ
  pub domicile_type : Option String
  pub from_province_id : Option ℕ
  pub to_province_id : Option ℕ

pub record VanillaMemoryPayload : Type 0 where
  pub memory_type : String
  pub end_date : Option String
  pub participants : Dict String ℕ
  pub deceased_cause : Option String
  pub deceased_age : Option ℕ
  pub deceased_first_name : Option String
  pub deceased_killer_id : Option ℕ
  pub deceased_killer_first_name : Option String

pub record EpidemicPayload : Type 0 where
  pub epidemic_id : ℕ
  pub epidemic_type : Option String
  pub name : Option String
  pub intensity : Option String
  pub start_date : Option String
  pub num_infected_provinces : ℕ
  pub num_character_deaths : ℕ

pub record ActivityPayload : Type 0 where
  pub activity_id : ℕ
  pub activity_type : Option String
  pub role : Role
  pub host_id : Option ℕ
  pub start_province_id : Option ℕ
  pub start_date : Option String

pub record InspirationSponsoredPayload : Type 0 where
  pub inspiration_id : ℕ
  pub inspiration_type : Option String
  pub artisan_character_id : Option ℕ
  pub total_cost : Option ℕ

pub record MiscarriagePayload : Type 0 where
  pub assumed_father_id : Option ℕ

pub record DecisionTakenPayload : Type 0 where
  pub decision_id : String
  pub cooldown_end_date : Option String

pub record BuildingCompletedPayload : Type 0 where
  pub building : String
  pub province_id : ℕ
  pub slot_index : ℕ
  pub start_date : Option String
