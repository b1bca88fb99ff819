-- ===== src/Diff/Character.antt =====
-- save/diff.py: `_diff_one_character`.
use ck3_llm_chronicler.Base.{
  ℕ, String, Bool, not, ◌&&◌, ◌||◌, List, [], ◌∷◌, ◌++◌, map, Option, none, some, if◌then◌else◌,
  ◌==◌, text_order, nat_order, pair_order, Dict, member, difference, sorted, same_option, filter,
}
use ck3_llm_chronicler.Snapshot.{CharacterSnapshot, MemorySnapshot}
use ck3_llm_chronicler.Diff.Types.{DiffEvent, is_some, is_none}
use ck3_llm_chronicler.Diff.Make.{
  make_death, make_travel, make_marriage, make_divorce, make_nickname, make_adventurer_started,
  make_adventurer_ended, make_government_changed, make_vanilla_memory, make_decision_taken,
}

abbrev pub landless_adventurer_government : String
landless_adventurer_government = "landless_adventurer_government"

abbrev pub narratively_interesting_decisions : List String
narratively_interesting_decisions = "raise_stele_decision" ∷ []

-- The memories of `curr` whose id `prev` does not have (computed by `diff_snapshots`).
unfoldable pub new_memories : CharacterSnapshot → CharacterSnapshot → List MemorySnapshot
new_memories prev curr =
    filter (λ m. not (member m.memory_id (map (λ (k : MemorySnapshot). k.memory_id) prev.memories)))
      curr.memories

module _ (prev curr : CharacterSnapshot) where
  -- 1. Death: either signal newly appears.
  unfoldable pub died : Bool
  died =
      (not prev.is_dead && (curr.is_dead && is_none prev.death_date))
      || (is_none prev.death_date && is_some curr.death_date)

  unfoldable pub diff_death : String → List DiffEvent
  diff_death date = if died then make_death curr date ∷ [] else []

  moved : Option ℕ → Option ℕ → String → List DiffEvent
  moved none to date = []
  moved (some from) none date = []
  moved (some from) (some to) date = if from == to then [] else make_travel curr from to date ∷ []

  -- 2. Travel: the location of a living character changed.
  unfoldable pub diff_travel : String → List DiffEvent
  unfolding moved
  diff_travel date = if curr.is_dead then [] else moved prev.location_id curr.location_id date

  -- A primary spouse counts if they are new and were not a spouse before. The id 0 is false.
  unfoldable pub promoted_spouse : List ℕ
  promoted_spouse = elim curr.family.primary_spouse [
    | none ↦ []
    | some sp ↦
        if not (sp == 0)
          && (not (same_option (some sp) prev.family.primary_spouse)
              && not (member sp prev.family.spouses))
        then sp ∷ []
        else []
  ]

  unfoldable pub new_spouses : List ℕ
  new_spouses = sorted (difference curr.family.spouses prev.family.spouses ++ promoted_spouse)

  -- 3. Marriage: a new spouse appeared.
  unfoldable pub diff_marriages : String → List DiffEvent
  diff_marriages date = map (λ spouse_id. make_marriage curr spouse_id date) new_spouses

  -- 4. Divorce: a former spouse appeared.
  unfoldable pub diff_divorces : String → List DiffEvent
  diff_divorces date =
      map (λ former_id. make_divorce curr former_id date)
        (sorted (difference curr.family.former_spouses prev.family.former_spouses))

  -- 5. A nickname gained, lost or replaced.
  unfoldable pub diff_nickname : String → List DiffEvent
  diff_nickname date =
      if not curr.is_dead && not (same_option prev.nickname curr.nickname)
      then make_nickname curr prev.nickname curr.nickname date ∷ []
      else []

  regime_change : Option String → Option String → String → List DiffEvent
  regime_change none new date = []
  regime_change (some old) none date = []
  regime_change (some old) (some new) date = make_government_changed curr old new date ∷ []

  -- 6. Into or out of the adventurer government, or another change of government.
  unfoldable pub diff_government : String → List DiffEvent
  unfolding regime_change
  diff_government date =
      let was_adv = same_option prev.government (some landless_adventurer_government) in
      let is_adv = same_option curr.government (some landless_adventurer_government) in
      if not curr.is_dead && not (same_option prev.government curr.government)
      then (if not was_adv && is_adv
          then make_adventurer_started curr date ∷ []
          else if was_adv && not is_adv
          then make_adventurer_ended curr date ∷ []
          else if not was_adv && not is_adv
          then regime_change prev.government curr.government date
          else [])
      else []

  -- 7. New memories.
  unfoldable pub diff_memories :
      String → Dict ℕ CharacterSnapshot → List MemorySnapshot → List DiffEvent
  diff_memories date characters memories =
      map (λ mem. make_vanilla_memory curr mem characters date) memories

  -- 8. Interesting decisions whose cooldown entry is new.
  unfoldable pub diff_decisions : String → List DiffEvent
  diff_decisions date =
      map (λ d. make_decision_taken curr d.0 d.1 date)
        (filter (λ d. member d.0 narratively_interesting_decisions)
          (filter (λ d. not (member d prev.decisions_taken)) curr.decisions_taken))

  unfoldable pub diff_one_character :
      String → Dict ℕ CharacterSnapshot → List MemorySnapshot → List DiffEvent
  diff_one_character date characters memories =
      diff_death date
      ++ (diff_travel date
          ++ (diff_marriages date
              ++ (diff_divorces date
                  ++ (diff_nickname date
                      ++ (diff_government date
                          ++ (diff_memories date characters memories ++ diff_decisions date))))))
