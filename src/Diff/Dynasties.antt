-- ===== src/Diff/Dynasties.antt =====
-- save/diff.py: `_diff_dynasty_legacies` and `_diff_dynasty_splendor`.
use ck3_llm_chronicler.Base.{
  ℕ, String, List, [], ◌∷◌, map, Option, none, some, if◌then◌else◌, leb, nat_order, text_order,
  pair_order, Dict, get, get_or, difference, sorted,
}
use ck3_llm_chronicler.Snapshot.{CharacterSnapshot}
use ck3_llm_chronicler.Splendor.{derive_splendor_tier}
use ck3_llm_chronicler.Events.{dynasty_legacy_unlocked, splendor_increased}
use ck3_llm_chronicler.Diff.Types.{DiffEvent, diff_event, option_bind}

-- The dynasty of a character's house.
unfoldable pub dynasty_of : CharacterSnapshot → Dict ℕ ℕ → Option ℕ
dynasty_of char house_to_dynasty =
    option_bind char.dynasty_house_id (λ house. get house house_to_dynasty)

legacies_of :
    ℕ
    → Dict ℕ (List String)
    → Dict ℕ (List String)
    → Dict ℕ String
    → String
    → Option ℕ
    → List DiffEvent
legacies_of ck3_id prev_perks curr_perks dynasties_lookup date none = []
legacies_of ck3_id prev_perks curr_perks dynasties_lookup date (some dynasty_id) =
    map
      (λ legacy_key.
        diff_event date ck3_id
          (dynasty_legacy_unlocked (record {
            dynasty_id = dynasty_id;
            dynasty_name = get dynasty_id dynasties_lookup;
            legacy_key = legacy_key;
          }))
          [])
      (sorted (difference (get_or dynasty_id [] curr_perks) (get_or dynasty_id [] prev_perks)))

unfoldable pub diff_dynasty_legacies :
    ℕ
    → CharacterSnapshot
    → Dict ℕ (List String)
    → Dict ℕ (List String)
    → Dict ℕ ℕ
    → Dict ℕ String
    → String
    → List DiffEvent
unfolding legacies_of
diff_dynasty_legacies ck3_id char prev_perks curr_perks house_to_dynasty dynasties_lookup date =
    if char.is_dead
    then []
    else legacies_of ck3_id prev_perks curr_perks dynasties_lookup date
        (dynasty_of char house_to_dynasty)

splendor_of :
    ℕ → Dict ℕ ℕ → Dict ℕ ℕ → Dict ℕ String → Dict ℕ ℕ → String → Option ℕ → List DiffEvent
splendor_of ck3_id prev_renown curr_renown dynasties_lookup dynasty_heads date none = []
splendor_of ck3_id prev_renown curr_renown dynasties_lookup dynasty_heads date (some dynasty_id) =
    let curr_acc = get_or dynasty_id 0 curr_renown in
    let prev_tier = derive_splendor_tier (get_or dynasty_id 0 prev_renown) in
    let curr_tier = derive_splendor_tier curr_acc in
    if leb curr_tier prev_tier
    then []
    else diff_event date ck3_id
        (splendor_increased (record {
          dynasty_id = dynasty_id;
          dynasty_name = get dynasty_id dynasties_lookup;
          dynasty_head_id = get dynasty_id dynasty_heads;
          old_tier = prev_tier;
          new_tier = curr_tier;
          total_renown_at_change = curr_acc;
        }))
        []
      ∷ []

unfoldable pub diff_dynasty_splendor :
    ℕ
    → CharacterSnapshot
    → Dict ℕ ℕ
    → Dict ℕ ℕ
    → Dict ℕ ℕ
    → Dict ℕ String
    → Dict ℕ ℕ
    → String
    → List DiffEvent
unfolding splendor_of
diff_dynasty_splendor ck3_id char prev_renown curr_renown house_to_dynasty dynasties_lookup
      dynasty_heads date =
    if char.is_dead
    then []
    else splendor_of ck3_id prev_renown curr_renown dynasties_lookup dynasty_heads date
        (dynasty_of char house_to_dynasty)
