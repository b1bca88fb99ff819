-- ===== src/Diff/Owner.antt =====
-- Whose events the functions of save/diff.py emit: those of the character that they are called for.
use ck3_llm_chronicler.Base.{
  ℕ, String, List, map, Option, none, some, ◌≡◌, refl, arith, All, All-append, All-silent, All-map,
  All-filter_map, Dict, sorted, difference, same_set, ◌||◌, text_order, nat_order,
}
use ck3_llm_chronicler.Snapshot.{CharacterSnapshot, MemorySnapshot}
use ck3_llm_chronicler.Diff.Types.{DiffEvent, Result, ok, raise, option_map}
use ck3_llm_chronicler.Diff.Make.{
  make_death, make_travel, make_marriage, make_divorce, make_nickname, make_adventurer_started,
  make_adventurer_ended, make_government_changed, make_vanilla_memory, make_decision_taken,
}
use ck3_llm_chronicler.Diff.Character.{
  diff_one_character, diff_death, diff_travel, diff_marriages, diff_divorces, diff_nickname,
  diff_government, diff_memories, diff_decisions,
}
use ck3_llm_chronicler.Diff.Attributes.{
  diff_traits, trait_gain, trait_loss, diff_concubines, diff_modifiers, diff_perks,
  diff_lifestyle_commits, lifestyle_commit, diff_miscarriage, diff_state_changes, diff_house,
  diff_culture, diff_faith,
}

-- Every event is about the character `cid`.
abbrev pub Owned : ℕ → List DiffEvent → Type 0
Owned cid = All (λ e. e.event.c ≡ cid)

abbrev pub OwnedResult : ℕ → Result (List DiffEvent) → Type 0
OwnedResult cid (ok es) = Owned cid es
OwnedResult cid (raise e) = Unit

-- What a partial event constructor makes is about `cid`.
pub option_map_owned :
    {A : Type 0} {cid : ℕ} (f : A → DiffEvent) (o : Option A) (e : DiffEvent)
    → ((a : A) → (f a).event.c ≡ cid)
    → option_map f o ≡ some e
    → e.event.c ≡ cid
option_map_owned f none e h k = cc
option_map_owned f (some a) e h k = ground (arith, h a)

module _ (prev curr : CharacterSnapshot) where
  abbrev IsOwn : DiffEvent → Type 0
  IsOwn e = e.event.c ≡ curr.ck3_id

  parts-Owned : (date : String) → Owned curr.ck3_id (diff_travel prev curr date)
  unfolding diff_travel make_travel
  parts-Owned date = ground arith

  government-Owned : (date : String) → Owned curr.ck3_id (diff_government prev curr date)
  unfolding diff_government make_adventurer_started make_adventurer_ended make_government_changed
  government-Owned date = ground arith

  death-Owned : (date : String) → Owned curr.ck3_id (diff_death prev curr date)
  unfolding diff_death make_death
  death-Owned date = ground arith

  nickname-Owned : (date : String) → Owned curr.ck3_id (diff_nickname prev curr date)
  unfolding diff_nickname make_nickname
  nickname-Owned date = ground arith

  marriages-Owned : (date : String) → Owned curr.ck3_id (diff_marriages prev curr date)
  unfolding diff_marriages make_marriage
  marriages-Owned date = All-map IsOwn (λ s. make_marriage curr s date) _ (λ s. refl)

  divorces-Owned : (date : String) → Owned curr.ck3_id (diff_divorces prev curr date)
  unfolding diff_divorces make_divorce
  divorces-Owned date = All-map IsOwn (λ s. make_divorce curr s date) _ (λ s. refl)

  memories-Owned :
      (date : String) (characters : Dict ℕ CharacterSnapshot) (memories : List MemorySnapshot)
      → Owned curr.ck3_id (diff_memories prev curr date characters memories)
  unfolding diff_memories make_vanilla_memory
  memories-Owned date characters memories =
      All-map IsOwn (λ m. make_vanilla_memory curr m characters date) memories (λ m. refl)

  decisions-Owned : (date : String) → Owned curr.ck3_id (diff_decisions prev curr date)
  unfolding diff_decisions make_decision_taken
  decisions-Owned date = All-map IsOwn (λ d. make_decision_taken curr d.0 d.1 date) _ (λ d. refl)

  pub one_character-Owned :
      (date : String) (characters : Dict ℕ CharacterSnapshot) (memories : List MemorySnapshot)
      → Owned curr.ck3_id (diff_one_character prev curr date characters memories)
  unfolding diff_one_character
  one_character-Owned date characters memories = All-append IsOwn _ _ (death-Owned date) (
      All-append IsOwn _ _ (parts-Owned date) (
        All-append IsOwn _ _ (marriages-Owned date) (
          All-append IsOwn _ _ (divorces-Owned date) (
            All-append IsOwn _ _ (nickname-Owned date) (
              All-append IsOwn _ _ (government-Owned date) (
                All-append IsOwn _ _ (memories-Owned date characters memories)
                  (decisions-Owned date)))))))

  pub modifiers-Owned : (date : String) → Owned curr.ck3_id (diff_modifiers prev curr date)
  unfolding diff_modifiers
  modifiers-Owned date = All-silent IsOwn curr.is_dead _ (All-map IsOwn _ _ (λ k. refl))

  pub perks-Owned : (date : String) → Owned curr.ck3_id (diff_perks prev curr date)
  unfolding diff_perks
  perks-Owned date = All-silent IsOwn curr.is_dead _ (All-map IsOwn _ _ (λ k. refl))

  pub concubines-Owned :
      (characters : Dict ℕ CharacterSnapshot) (date : String)
      → Owned curr.ck3_id (diff_concubines prev curr characters date)
  unfolding diff_concubines
  concubines-Owned characters date = All-silent IsOwn curr.is_dead _ (All-map IsOwn _ _ (λ k. refl))

  pub traits-Owned :
      (traits_lookup : List String) (date : String)
      → Owned curr.ck3_id (diff_traits prev curr traits_lookup date)
  unfolding diff_traits trait_gain trait_loss
  traits-Owned traits_lookup date =
      All-silent IsOwn (curr.is_dead || same_set prev.traits curr.traits) _ (
        All-append IsOwn
          (map (trait_gain prev curr traits_lookup date)
            (sorted (difference curr.traits prev.traits)))
          (map (trait_loss prev curr traits_lookup date)
            (sorted (difference prev.traits curr.traits)))
          (All-map IsOwn (trait_gain prev curr traits_lookup date) _ (λ k. refl))
          (All-map IsOwn (trait_loss prev curr traits_lookup date) _ (λ k. refl)))

  lifestyle_commit-Owned :
      (date : String) (groups : Dict String (List String)) (ls : String) (e : DiffEvent)
      → lifestyle_commit prev curr date groups ls ≡ some e
      → e.event.c ≡ curr.ck3_id
  unfolding lifestyle_commit
  lifestyle_commit-Owned date groups ls e h = option_map_owned _ _ e (λ k. refl) h

  pub lifestyle_commits-Owned :
      (date : String) → Owned curr.ck3_id (diff_lifestyle_commits prev curr date)
  unfolding diff_lifestyle_commits
  lifestyle_commits-Owned date =
      All-silent IsOwn curr.is_dead _
        (All-filter_map IsOwn (lifestyle_commit prev curr date _) _ (lifestyle_commit-Owned date _))

  pub miscarriage-Owned :
      (pregnant : Option ℕ) (date : String) (memories : List MemorySnapshot)
      → Owned curr.ck3_id (diff_miscarriage prev curr pregnant date memories)
  unfolding diff_miscarriage
  miscarriage-Owned none date memories = tt
  miscarriage-Owned (some pregnant) date memories = ground arith

  house-Owned :
      (m : Dict ℕ String) (date : String) → Owned curr.ck3_id (diff_house prev curr m date)
  unfolding diff_house
  house-Owned m date = ground arith

  culture-Owned :
      (m : Dict ℕ String) (date : String) → Owned curr.ck3_id (diff_culture prev curr m date)
  unfolding diff_culture
  culture-Owned m date = ground arith

  faith-Owned :
      (m : Dict ℕ String) (date : String) → Owned curr.ck3_id (diff_faith prev curr m date)
  unfolding diff_faith
  faith-Owned m date = ground arith

  pub state_changes-Owned :
      (houses cultures faiths : Dict ℕ String) (date : String)
      → Owned curr.ck3_id (diff_state_changes prev curr houses cultures faiths date)
  unfolding diff_state_changes
  state_changes-Owned houses cultures faiths date = All-silent IsOwn curr.is_dead _ (
      All-append IsOwn _ _ (house-Owned houses date)
        (All-append IsOwn _ _ (culture-Owned cultures date) (faith-Owned faiths date)))
