-- ===== src/Diff/Make.antt =====
-- The event constructors of save/diff.py: `_make_*`, `_compute_death_age`, `_family_participants`.
use ck3_llm_chronicler.Base.{
  ℕ, ◌-◌, String, ◌&&◌, List, [], ◌∷◌, ◌++◌, map, Option, none, some, if◌then◌else◌, ◌≡?◌, any, get,
  Dict, put, codes, Text, text_lt, take, drop, value, text_order, nat_order, pair_order,
}
use ck3_llm_chronicler.Dates.{parse_ck3_date}
use ck3_llm_chronicler.Snapshot.{CharacterSnapshot, MemorySnapshot}
use ck3_llm_chronicler.Events.{
  death, travel, marriage, divorce, nickname, adventurer_started, adventurer_ended,
  government_changed, decision_taken, vanilla_memory,
}
use ck3_llm_chronicler.Diff.Types.{
  DiffEvent, Participants, diff_event, non_empty, or_default, none_if_empty, option_map,
  option_bind, participant,
}

-- The difference of the years, less one before the birthday. `-` stops at 0, as `max(age, 0)` does.
unfoldable pub age_between : Text → Text → ℕ
age_between birth_iso death_iso =
    let years = value 0 (take 4 death_iso) - value 0 (take 4 birth_iso) in
    if text_lt (drop 5 death_iso) (drop 5 birth_iso) then years - 1 else years

unfoldable pub compute_death_age : Option String → Option String → Option ℕ
compute_death_age birth_date death_date = option_bind birth_date λ birth.
    option_bind death_date λ died.
      if non_empty birth && non_empty died
      then option_bind (parse_ck3_date (codes birth))
          (λ birth_iso. option_map (age_between birth_iso) (parse_ck3_date (codes died)))
      else none

unfoldable pub family_participants : CharacterSnapshot → Participants
family_participants c =
    participant "mother" c.family.mother
    ++ (participant "father" c.family.father
        ++ (participant "primary_spouse" c.family.primary_spouse
            ++ (map (λ sp. ("spouse", sp)) c.family.spouses
                ++ map (λ ch. ("child", ch)) c.family.children)))

-- The killer, unless the family already lists it under that role.
killer_participant : Participants → Option ℕ → Participants
killer_participant family none = []
killer_participant family (some killer) =
    if any family (λ who. (who.0 ≡? "killer") && (who.1 ≡? killer))
    then []
    else ("killer", killer) ∷ []

unfoldable pub make_death : CharacterSnapshot → String → DiffEvent
unfolding killer_participant
make_death c date =
    let death_date = or_default c.death_date date in
    let family = family_participants c in
    diff_event death_date c.ck3_id
      (death (record {
        killer = c.death_killer;
        cause = c.death_cause;
        death_age = compute_death_age c.birth_date (some death_date);
      }))
      (family ++ killer_participant family c.death_killer)

unfoldable pub make_travel : CharacterSnapshot → ℕ → ℕ → String → DiffEvent
make_travel c from_loc to_loc date =
    diff_event date c.ck3_id
      (travel (record { from_location = some from_loc; to_location = some to_loc })) []

unfoldable pub make_marriage : CharacterSnapshot → ℕ → String → DiffEvent
make_marriage c spouse_id date =
    diff_event date c.ck3_id (marriage (record { spouse_character_id = some spouse_id }))
      (("spouse", spouse_id) ∷ [])

unfoldable pub make_divorce : CharacterSnapshot → ℕ → String → DiffEvent
make_divorce c former_id date =
    diff_event date c.ck3_id (divorce (record { former_spouse_character_id = some former_id }))
      (("former_spouse", former_id) ∷ [])

unfoldable pub make_adventurer_started : CharacterSnapshot → String → DiffEvent
make_adventurer_started c date = diff_event date c.ck3_id adventurer_started []

unfoldable pub make_adventurer_ended : CharacterSnapshot → String → DiffEvent
make_adventurer_ended c date = diff_event date c.ck3_id adventurer_ended []

unfoldable pub make_government_changed : CharacterSnapshot → String → String → String → DiffEvent
make_government_changed c previous new date =
    diff_event date c.ck3_id
      (government_changed (record { previous_government = previous; new_government = new })) []

unfoldable pub make_nickname :
    CharacterSnapshot → Option String → Option String → String → DiffEvent
make_nickname c from_nick to_nick date =
    diff_event date c.ck3_id
      (nickname (record { from_nickname = from_nick; to_nickname = to_nick })) []

unfoldable pub make_decision_taken : CharacterSnapshot → String → String → String → DiffEvent
make_decision_taken c decision_id cooldown_end_date diff_date =
    diff_event diff_date c.ck3_id
      (decision_taken
        (record { decision_id = decision_id; cooldown_end_date = none_if_empty cooldown_end_date }))
      []

-- `dict(mem.participants)`: a later pair replaces an earlier one of the same role
participants_dict : List (String × ℕ) → Dict String ℕ → Dict String ℕ
participants_dict [] d = d
participants_dict ((role, id) ∷ rest) d = participants_dict rest (put role id d)

-- The deceased of a `relative_died` memory, as far as the snapshot still has the record.
unfoldable pub deceased_of : MemorySnapshot → Dict ℕ CharacterSnapshot → Option CharacterSnapshot
unfolding participants_dict
deceased_of mem characters =
    if mem.memory_type ≡? "relative_died"
    then option_bind (get "dead_relation" (participants_dict mem.participants []))
        (λ dead_id. get dead_id characters)
    else none

unfoldable pub make_vanilla_memory :
    CharacterSnapshot → MemorySnapshot → Dict ℕ CharacterSnapshot → String → DiffEvent
unfolding participants_dict
make_vanilla_memory c mem characters diff_window_date =
    let deceased = deceased_of mem characters in
    let killer_id = option_bind deceased λ d. d.death_killer in
    diff_event (or_default (some mem.creation_date) diff_window_date) c.ck3_id
      (vanilla_memory (record {
        memory_type = mem.memory_type;
        end_date = mem.end_date;
        participants = participants_dict mem.participants [];
        deceased_cause = option_bind deceased λ d. d.death_cause;
        deceased_age = option_bind deceased λ d. compute_death_age d.birth_date d.death_date;
        deceased_first_name = option_bind deceased λ d. d.first_name;
        deceased_killer_id = killer_id;
        deceased_killer_first_name =
            option_bind killer_id λ k. option_bind (get k characters) λ killer. killer.first_name;
      }))
      mem.participants
