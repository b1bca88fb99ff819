-- ===== src/Diff/Attributes.antt =====
-- save/diff.py: `_diff_modifiers`, `_diff_perks`, `_diff_lifestyle_commits`, `_diff_concubines`,
-- `_diff_traits`, `_diff_miscarriage` and `_diff_state_changes`. Each is silent on the dead.
use ck3_llm_chronicler.Base.{
  ℕ, suc, String, not, ◌&&◌, ◌||◌, List, [], ◌∷◌, ◌++◌, map, Option, none, some, if◌then◌else◌,
  ◌≡?◌, text_order, nat_order, Dict, get, get_or, put, keys, member, difference, sorted, same_set,
  same_option, filter_map, any, get_elem?,
}
use ck3_llm_chronicler.Lifestyles.{lifestyle_of_perk}
use ck3_llm_chronicler.Snapshot.{CharacterSnapshot, MemorySnapshot}
use ck3_llm_chronicler.Events.{
  modifier_acquired, perk_acquired, lifestyle_committed, concubine_taken, trait_gained, trait_lost,
  miscarriage, house_change, culture_change, faith_change,
}
use ck3_llm_chronicler.Diff.Types.{DiffEvent, diff_event, option_map, option_bind, participant}

module _ (prev curr : CharacterSnapshot) where
  unfoldable pub diff_modifiers : String → List DiffEvent
  diff_modifiers date =
      if curr.is_dead
      then []
      else map
          (λ key.
            diff_event date curr.ck3_id (modifier_acquired (record { modifier_key = key })) [])
          (sorted (difference curr.modifiers prev.modifiers))

  unfoldable pub diff_perks : String → List DiffEvent
  diff_perks date =
      if curr.is_dead
      then []
      else map (λ key. diff_event date curr.ck3_id (perk_acquired (record { perk_key = key })) [])
          (sorted (difference curr.perks prev.perks))

-- `new_perks_by_lifestyle`: the new perks of each lifestyle that the character was not in. The
-- groups and their keys are sorted afterwards, so the order in which the set is walked is free.
unfoldable pub group_perks :
    List String → List String → Dict String (List String) → Dict String (List String)
group_perks prev_lifestyles [] groups = groups
group_perks prev_lifestyles (perk ∷ rest) groups =
    group_perks prev_lifestyles rest (elim (lifestyle_of_perk perk) [
      | none ↦ groups
      | some ls ↦
          if member ls prev_lifestyles
          then groups
          else put ls (get_or ls [] groups ++ perk ∷ []) groups
    ])

abbrev pub head? : List String → Option String
head? [] = none
head? (x ∷ xs) = some x

module _ (prev curr : CharacterSnapshot) where
  unfoldable pub lifestyle_commit : String → Dict String (List String) → String → Option DiffEvent
  lifestyle_commit date groups lifestyle =
      option_map
        (λ first_perk.
          diff_event date curr.ck3_id
            (lifestyle_committed
              (record { lifestyle_key = lifestyle; first_perk_key = first_perk }))
            [])
        (head? (sorted (get_or lifestyle [] groups)))

  unfoldable pub diff_lifestyle_commits : String → List DiffEvent
  diff_lifestyle_commits date =
      let groups =
        group_perks (filter_map lifestyle_of_perk prev.perks)
          (sorted (difference curr.perks prev.perks)) [] in
      if curr.is_dead then [] else filter_map (lifestyle_commit date groups) (sorted (keys groups))

  unfoldable pub diff_concubines : Dict ℕ CharacterSnapshot → String → List DiffEvent
  diff_concubines characters date =
      if curr.is_dead
      then []
      else map
          (λ cid.
            diff_event date curr.ck3_id
              (concubine_taken (record {
                concubine_id = cid;
                concubine_name = option_bind (get cid characters) (λ partner. partner.first_name);
              }))
              (("concubine", cid) ∷ []))
          (sorted (difference curr.family.concubines prev.family.concubines))

-- `_lookup_trait_name`: none when the id is out of range
unfoldable pub lookup_trait_name : ℕ → List String → Option String
lookup_trait_name trait_id traits_lookup = get_elem? traits_lookup trait_id

module _ (prev curr : CharacterSnapshot) where
  unfoldable pub trait_gain : List String → String → ℕ → DiffEvent
  trait_gain traits_lookup date trait_id =
      diff_event date curr.ck3_id
        (trait_gained
          (record { trait_id = trait_id; trait_name = lookup_trait_name trait_id traits_lookup }))
        []

  unfoldable pub trait_loss : List String → String → ℕ → DiffEvent
  trait_loss traits_lookup date trait_id =
      diff_event date curr.ck3_id
        (trait_lost
          (record { trait_id = trait_id; trait_name = lookup_trait_name trait_id traits_lookup }))
        []

  unfoldable pub diff_traits : List String → String → List DiffEvent
  diff_traits traits_lookup date =
      if curr.is_dead || same_set prev.traits curr.traits
      then []
      else map (trait_gain traits_lookup date) (sorted (difference curr.traits prev.traits))
        ++ map (trait_loss traits_lookup date) (sorted (difference prev.traits curr.traits))

-- `_trait_id_by_name`: the first index that has the name
unfoldable pub trait_id_by_name : String → List String → Option ℕ
trait_id_by_name name [] = none
trait_id_by_name name (n ∷ rest) =
    let later = trait_id_by_name name rest in if n ≡? name then some 0 else option_map suc later

abbrev pub pregnant_trait_name : String
pregnant_trait_name = "pregnant"

module _ (prev curr : CharacterSnapshot) where
  unfoldable pub diff_miscarriage : Option ℕ → String → List MemorySnapshot → List DiffEvent
  diff_miscarriage none date new_memories = []
  diff_miscarriage (some pregnant) date new_memories =
      if curr.is_dead
        || not (member pregnant prev.traits && not (member pregnant curr.traits))
        || any new_memories (λ m. m.memory_type ≡? "child_born")
      then []
      else diff_event date curr.ck3_id
          (miscarriage (record { assumed_father_id = curr.family.primary_spouse }))
          (participant "assumed_father" curr.family.primary_spouse)
        ∷ []

  -- The name of an id that may be missing.
  abbrev name_in : Dict ℕ String → Option ℕ → Option String
  name_in names id = option_bind id (λ k. get k names)

  unfoldable pub diff_house : Dict ℕ String → String → List DiffEvent
  diff_house houses date =
      if same_option prev.dynasty_house_id curr.dynasty_house_id
      then []
      else diff_event date curr.ck3_id
          (house_change (record {
            from_house_id = prev.dynasty_house_id;
            from_house_name = name_in houses prev.dynasty_house_id;
            to_house_id = curr.dynasty_house_id;
            to_house_name = name_in houses curr.dynasty_house_id;
          }))
          []
        ∷ []

  unfoldable pub diff_culture : Dict ℕ String → String → List DiffEvent
  diff_culture cultures date =
      if same_option prev.culture_id curr.culture_id
      then []
      else diff_event date curr.ck3_id
          (culture_change (record {
            from_culture_id = prev.culture_id;
            from_culture_name = name_in cultures prev.culture_id;
            to_culture_id = curr.culture_id;
            to_culture_name = name_in cultures curr.culture_id;
          }))
          []
        ∷ []

  unfoldable pub diff_faith : Dict ℕ String → String → List DiffEvent
  diff_faith faiths date =
      if same_option prev.faith_id curr.faith_id
      then []
      else diff_event date curr.ck3_id
          (faith_change (record {
            from_faith_id = prev.faith_id;
            from_faith_name = name_in faiths prev.faith_id;
            to_faith_id = curr.faith_id;
            to_faith_name = name_in faiths curr.faith_id;
          }))
          []
        ∷ []

  unfoldable pub diff_state_changes :
      Dict ℕ String → Dict ℕ String → Dict ℕ String → String → List DiffEvent
  diff_state_changes houses cultures faiths date =
      if curr.is_dead
      then []
      else diff_house houses date ++ (diff_culture cultures date ++ diff_faith faiths date)
