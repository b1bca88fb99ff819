-- ===== src/Diff/Snapshots/IdleCharacter.antt =====
-- A character against itself: no attribute differ has anything to report.
use ck3_llm_chronicler.Base.{
  ℕ, String, true, not, List, [], ◌∷◌, map, Option, none, some, ◌≡◌, refl, arith, nat_order,
  text_order, pair_order, Dict, get_or, member, sorted, difference, difference_self, same_set_refl,
  same_option_refl, filter, ≡?_refl,
}
use ck3_llm_chronicler.Snapshot.{CharacterSnapshot, SaveSnapshot, MemorySnapshot}
use ck3_llm_chronicler.Diff.Character.{
  new_memories, died, diff_death, diff_travel, promoted_spouse, new_spouses, diff_marriages,
  diff_divorces, diff_nickname, diff_government, diff_memories, diff_decisions, diff_one_character,
}
use ck3_llm_chronicler.Diff.Attributes.{
  diff_traits, diff_concubines, diff_modifiers, diff_perks, group_perks, diff_lifestyle_commits,
  diff_miscarriage, diff_house, diff_culture, diff_faith, diff_state_changes,
}
use ck3_llm_chronicler.Diff.SetDiff.{SetDiffSpec, make_set_differ}

module _ (c : CharacterSnapshot) where
  known_memories :
      (ms old : List MemorySnapshot)
      → ((m : ℕ)
          → member m (map (λ (k : MemorySnapshot). k.memory_id) ms) ≡ true
          → member m (map (λ (k : MemorySnapshot). k.memory_id) old) ≡ true)
      → filter (λ m. not (member m.memory_id (map (λ (k : MemorySnapshot). k.memory_id) old))) ms
        ≡ []
  unfolding member
  known_memories [] old h = refl
  known_memories (m ∷ ms) old h =
      rw (h m.memory_id (ground (arith, ≡?_refl m.memory_id)))
        (known_memories ms old (λ k e. h k (ground arith)))

  pub idle_memories : new_memories c c ≡ []
  unfolding new_memories
  idle_memories = known_memories c.memories c.memories (λ m h. h)

  pub idle_death : (date : String) → diff_death c c date ≡ []
  unfolding diff_death died
  idle_death date = ground arith

  pub idle_travel : (date : String) → diff_travel c c date ≡ []
  unfolding diff_travel
  idle_travel date = ground arith

  pub idle_promoted : promoted_spouse c c ≡ []
  unfolding promoted_spouse
  idle_promoted = ground (arith, same_option_refl c.family.primary_spouse)

  pub idle_marriages : (date : String) → diff_marriages c c date ≡ []
  unfolding diff_marriages new_spouses sorted
  idle_marriages date = rw (difference_self c.family.spouses) (rw idle_promoted)

  pub idle_divorces : (date : String) → diff_divorces c c date ≡ []
  unfolding diff_divorces sorted
  idle_divorces date = rw (difference_self c.family.former_spouses)

  pub idle_nickname : (date : String) → diff_nickname c c date ≡ []
  unfolding diff_nickname
  idle_nickname date = ground (arith, same_option_refl c.nickname)

  pub idle_government : (date : String) → diff_government c c date ≡ []
  unfolding diff_government
  idle_government date = ground (arith, same_option_refl c.government)

  pub idle_decisions : (date : String) → diff_decisions c c date ≡ []
  unfolding diff_decisions
  idle_decisions date =
      let e : filter (λ d. not (member d c.decisions_taken)) c.decisions_taken ≡ [] =
        unfold difference in difference_self c.decisions_taken in
      rw e

  pub idle_one_character :
      (date : String) (characters : Dict ℕ CharacterSnapshot)
      → diff_one_character c c date characters (new_memories c c) ≡ []
  unfolding diff_one_character diff_memories
  idle_one_character date characters = rw (idle_death date) (
      rw (idle_travel date) (
        rw (idle_marriages date) (
          rw (idle_divorces date) (
            rw (idle_nickname date)
              (rw (idle_government date) (rw idle_memories (rw (idle_decisions date))))))))

  pub idle_traits : (l : List String) (date : String) → diff_traits c c l date ≡ []
  unfolding diff_traits
  idle_traits l date = rw (same_set_refl c.traits) (ground arith)

  pub idle_concubines :
      (characters : Dict ℕ CharacterSnapshot) (date : String)
      → diff_concubines c c characters date ≡ []
  unfolding diff_concubines sorted
  idle_concubines characters date = rw (difference_self c.family.concubines) (ground arith)

  pub idle_modifiers : (date : String) → diff_modifiers c c date ≡ []
  unfolding diff_modifiers sorted
  idle_modifiers date = rw (difference_self c.modifiers) (ground arith)

  pub idle_perks : (date : String) → diff_perks c c date ≡ []
  unfolding diff_perks sorted
  idle_perks date = rw (difference_self c.perks) (ground arith)

  pub idle_lifestyle_commits : (date : String) → diff_lifestyle_commits c c date ≡ []
  unfolding diff_lifestyle_commits sorted group_perks
  idle_lifestyle_commits date = rw (difference_self c.perks) (ground arith)

  pub idle_miscarriage :
      (pregnant : Option ℕ) (date : String) (ms : List MemorySnapshot)
      → diff_miscarriage c c pregnant date ms ≡ []
  unfolding diff_miscarriage
  idle_miscarriage none date ms = refl
  idle_miscarriage (some k) date ms = ground arith

  pub idle_state_changes :
      (h k f : Dict ℕ String) (date : String) → diff_state_changes c c h k f date ≡ []
  unfolding diff_state_changes diff_house diff_culture diff_faith
  idle_state_changes h k f date = ground (
    arith,
    same_option_refl c.dynasty_house_id,
    same_option_refl c.culture_id,
    same_option_refl c.faith_id,
  )

pub idle_set_differ :
    (spec : SetDiffSpec) (cid : ℕ) (c : CharacterSnapshot) (s : SaveSnapshot) (date : String)
    → make_set_differ spec cid c s s date ≡ []
unfolding make_set_differ
idle_set_differ spec cid c s date = rw (same_set_refl (get_or cid [] (spec.index s))) (ground arith)
