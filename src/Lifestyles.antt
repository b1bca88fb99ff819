-- ===== src/Lifestyles.antt =====
-- src/chronicler/save/lifestyle_perks.py: the lifestyle of a perk, from a table.
use ck3_llm_chronicler.Base.{
  String, List, [], ◌∷◌, Option, none, if◌then◌else◌, ◌≡?◌, text_order, Dict, get,
}

abbrev pub known_lifestyles : List String
known_lifestyles =
    "martial_lifestyle" ∷ "diplomacy_lifestyle" ∷ "stewardship_lifestyle" ∷ "intrigue_lifestyle"
    ∷ "learning_lifestyle" ∷ "wanderer_lifestyle" ∷ []

abbrev pub lifestyle_for_perk : Dict String String
lifestyle_for_perk =
    ("bellum_justum_perk", "martial_lifestyle")
    ∷ ("parthian_tactics_perk", "martial_lifestyle")
    ∷ ("overseer_perk", "martial_lifestyle")
    ∷ ("chivalric_brilliance_perk", "martial_lifestyle")
    ∷ ("tomb_raider_perk", "martial_lifestyle")
    ∷ ("gallant_perk", "martial_lifestyle")
    ∷ ("schemer_perk", "intrigue_lifestyle")
    ∷ ("intrigue_perk", "intrigue_lifestyle")
    ∷ ("seducer_perk", "intrigue_lifestyle")
    ∷ ("torturer_perk", "intrigue_lifestyle")
    ∷ ("underhanded_perk", "intrigue_lifestyle")
    ∷ ("mystic_perk", "learning_lifestyle")
    ∷ ("scholar_perk", "learning_lifestyle")
    ∷ ("medicus_perk", "learning_lifestyle")
    ∷ ("theologian_perk", "learning_lifestyle")
    ∷ ("august_perk", "diplomacy_lifestyle")
    ∷ ("diplomat_perk", "diplomacy_lifestyle")
    ∷ ("family_first_perk", "diplomacy_lifestyle")
    ∷ ("groomed_to_rule_perk", "diplomacy_lifestyle")
    ∷ ("architect_perk", "stewardship_lifestyle")
    ∷ ("fiscal_perk", "stewardship_lifestyle")
    ∷ ("organizer_perk", "stewardship_lifestyle")
    ∷ ("avaricious_perk", "stewardship_lifestyle")
    ∷ []

unfoldable pub lifestyle_of_perk : String → Option String
lifestyle_of_perk perk_key = if perk_key ≡? "" then none else get perk_key lifestyle_for_perk
