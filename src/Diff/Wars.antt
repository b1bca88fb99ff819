-- ===== src/Diff/Wars.antt =====
-- save/diff.py: `_diff_wars` and its helpers. `strip_loca_markup` of save/localization.py is a
-- parameter: it only shapes the war's name.
use ck3_llm_chronicler.Base.{
  ℕ, String, Bool, not, ◌&&◌, ◌||◌, List, [], ◌∷◌, ◌++◌, Option, none, some, if◌then◌else◌,
  nat_order, Dict, get, get_or, has_key, member, difference, sorted, same_set, same_option,
  filter_map,
}
use ck3_llm_chronicler.Snapshot.{CharacterSnapshot, WarSnapshot}
use ck3_llm_chronicler.Events.{
  Side, attacker, defender, WarSidePayload, war_declared, war_joined, war_left, war_concluded,
}
use ck3_llm_chronicler.Diff.Types.{DiffEvent, Participants, diff_event, option_map, participant}

unfoldable pub resolve_war_side : WarSnapshot → ℕ → Option Side
resolve_war_side war ck3_id =
    if member ck3_id war.attacker_participants
    then some attacker
    else if member ck3_id war.defender_participants
    then some defender
    else none

-- The claimant, unless they are one of the primaries.
claimant_participant : WarSnapshot → Option ℕ → Participants
claimant_participant war none = []
claimant_participant war (some id) =
    if same_option (some id) war.primary_attacker_id
      || same_option (some id) war.primary_defender_id
    then []
    else ("claimant", id) ∷ []

unfoldable pub war_participants : WarSnapshot → Participants
unfolding claimant_participant
war_participants war =
    participant "primary_attacker" war.primary_attacker_id
    ++ (participant "primary_defender" war.primary_defender_id
        ++ claimant_participant war war.claimant_id)

unfoldable pub is_principal : WarSnapshot → ℕ → Bool
is_principal war ck3_id =
    same_option (some ck3_id) war.primary_attacker_id
    || same_option (some ck3_id) war.primary_defender_id

module _ (strip_loca_markup : Option String → Option String) where
  unfoldable pub war_side_payload : WarSnapshot → Option Side → WarSidePayload
  war_side_payload war side = record {
    war_id = war.war_id;
    war_name = strip_loca_markup war.name;
    casus_belli_type = war.casus_belli_type;
    targeted_titles = war.targeted_titles;
    side = side;
    primary_attacker_id = war.primary_attacker_id;
    primary_defender_id = war.primary_defender_id;
    claimant_id = war.claimant_id;
  }

  module _ (ck3_id : ℕ) (prev_wars curr_wars : Dict ℕ WarSnapshot) (date : String) where
    -- A war that the character is newly in: declared if it is new and they are a principal.
    unfoldable pub war_entered : ℕ → Option DiffEvent
    war_entered war_id =
        option_map
          (λ war.
            let payload = war_side_payload war (resolve_war_side war ck3_id) in
            diff_event date ck3_id
              (if not (has_key war_id prev_wars) && is_principal war ck3_id
                then war_declared payload
                else war_joined payload)
              (war_participants war))
          (get war_id curr_wars)

    -- A war that the character is no longer in: concluded if it is gone.
    unfoldable pub war_exited : ℕ → Option DiffEvent
    war_exited war_id =
        option_map
          (λ prev_war.
            let payload = war_side_payload prev_war (resolve_war_side prev_war ck3_id) in
            diff_event date ck3_id
              (if not (has_key war_id curr_wars) then war_concluded payload else war_left payload)
              (war_participants prev_war))
          (get war_id prev_wars)

  unfoldable pub diff_wars :
      ℕ
      → CharacterSnapshot
      → Dict ℕ WarSnapshot
      → Dict ℕ WarSnapshot
      → Dict ℕ (List ℕ)
      → Dict ℕ (List ℕ)
      → String
      → List DiffEvent
  diff_wars ck3_id char prev_wars curr_wars prev_char_to_wars curr_char_to_wars date =
      let prev_set = get_or ck3_id [] prev_char_to_wars in
      let curr_set = get_or ck3_id [] curr_char_to_wars in
      if char.is_dead
      then []
      else if same_set prev_set curr_set
      then []
      else filter_map (war_entered ck3_id prev_wars curr_wars date)
          (sorted (difference curr_set prev_set))
        ++ filter_map (war_exited ck3_id prev_wars curr_wars date)
            (sorted (difference prev_set curr_set))
