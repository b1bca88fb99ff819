-- ===== src/Events.antt =====
-- src/chronicler/schema/events.py: the events, as one record over the union of their payloads.
mod Payloads
pub use Payloads.*
use ck3_llm_chronicler.Base.{ℕ, String}

abbrev pub schema_version : ℕ
schema_version = 1

-- A constructor for each class of the union, named by its `t`. The classes with an empty payload
-- carry nothing.
pub data Payload : Type 0 where
  death : DeathPayload → Payload
  birth : Payload
  marriage : MarriagePayload → Payload
  divorce : DivorcePayload → Payload
  title_gain : Payload
  title_lost : Payload
  war_started : Payload
  war_won_attacker : Payload
  war_won_defender : Payload
  imprison : Payload
  release : Payload
  travel : TravelPayload → Payload
  nickname : NicknamePayload → Payload
  alliance_formed : AlliancePayload → Payload
  alliance_broken : AlliancePayload → Payload
  adventurer_started : Payload
  adventurer_ended : Payload
  government_changed : GovernmentChangedPayload → Payload
  trait_gained : TraitPayload → Payload
  trait_lost : TraitPayload → Payload
  title_acquired : TitleAcquiredPayload → Payload
  title_relinquished : TitleRelinquishedPayload → Payload
  title_created : TitleCreatedPayload → Payload
  house_change : HouseChangePayload → Payload
  culture_change : CultureChangePayload → Payload
  faith_change : FaithChangePayload → Payload
  war_declared : WarSidePayload → Payload
  war_joined : WarSidePayload → Payload
  war_left : WarSidePayload → Payload
  war_concluded : WarSidePayload → Payload
  artifact_acquired : ArtifactPayload → Payload
  artifact_lost : ArtifactPayload → Payload
  dynasty_legacy_unlocked : DynastyLegacyPayload → Payload
  splendor_increased : SplendorPayload → Payload
  concubine_taken : ConcubinePayload → Payload
  modifier_acquired : ModifierPayload → Payload
  perk_acquired : PerkPayload → Payload
  lifestyle_committed : LifestyleCommittedPayload → Payload
  contract_completed : ContractPayload → Payload
  camp_companion_joined : CampCompanionPayload → Payload
  camp_companion_left : CampCompanionPayload → Payload
  domicile_moved : DomicilePayload → Payload
  vanilla_memory : VanillaMemoryPayload → Payload
  epidemic_outbreak : EpidemicPayload → Payload
  miscarriage : MiscarriagePayload → Payload
  decision_taken : DecisionTakenPayload → Payload
  building_completed : BuildingCompletedPayload → Payload
  activity_completed : ActivityPayload → Payload
  inspiration_sponsored : InspirationSponsoredPayload → Payload

-- The discriminator `t`.
unfoldable pub event_type : Payload → String
event_type (death p) = "death"
event_type birth = "birth"
event_type (marriage p) = "marriage"
event_type (divorce p) = "divorce"
event_type title_gain = "title_gain"
event_type title_lost = "title_lost"
event_type war_started = "war_started"
event_type war_won_attacker = "war_won_attacker"
event_type war_won_defender = "war_won_defender"
event_type imprison = "imprison"
event_type release = "release"
event_type (travel p) = "travel"
event_type (nickname p) = "nickname"
event_type (alliance_formed p) = "alliance_formed"
event_type (alliance_broken p) = "alliance_broken"
event_type adventurer_started = "adventurer_started"
event_type adventurer_ended = "adventurer_ended"
event_type (government_changed p) = "government_changed"
event_type (trait_gained p) = "trait_gained"
event_type (trait_lost p) = "trait_lost"
event_type (title_acquired p) = "title_acquired"
event_type (title_relinquished p) = "title_relinquished"
event_type (title_created p) = "title_created"
event_type (house_change p) = "house_change"
event_type (culture_change p) = "culture_change"
event_type (faith_change p) = "faith_change"
event_type (war_declared p) = "war_declared"
event_type (war_joined p) = "war_joined"
event_type (war_left p) = "war_left"
event_type (war_concluded p) = "war_concluded"
event_type (artifact_acquired p) = "artifact_acquired"
event_type (artifact_lost p) = "artifact_lost"
event_type (dynasty_legacy_unlocked p) = "dynasty_legacy_unlocked"
event_type (splendor_increased p) = "splendor_increased"
event_type (concubine_taken p) = "concubine_taken"
event_type (modifier_acquired p) = "modifier_acquired"
event_type (perk_acquired p) = "perk_acquired"
event_type (lifestyle_committed p) = "lifestyle_committed"
event_type (contract_completed p) = "contract_completed"
event_type (camp_companion_joined p) = "camp_companion_joined"
event_type (camp_companion_left p) = "camp_companion_left"
event_type (domicile_moved p) = "domicile_moved"
event_type (vanilla_memory p) = "vanilla_memory"
event_type (epidemic_outbreak p) = "epidemic_outbreak"
event_type (miscarriage p) = "miscarriage"
event_type (decision_taken p) = "decision_taken"
event_type (building_completed p) = "building_completed"
event_type (activity_completed p) = "activity_completed"
event_type (inspiration_sponsored p) = "inspiration_sponsored"

-- `v` has its default, `d` is the date and `c` the primary character.
pub record Event : Type 0 where
  pub v : ℕ
  pub d : String
  pub c : ℕ
  pub p : Payload
