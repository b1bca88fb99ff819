-- ===== src/Diff/Kinds.antt =====
-- Which parts of `_diff_one_character` report deaths and marriages.
use ck3_llm_chronicler.Base.{
  ℕ, String, List, [], ◌∷◌, ◌++◌, map, Option, none, some, ◌≡◌, refl, arith, append-nil, ap, sym,
  ◌∙◌, All, All-append, All-map, filter_map, Dict,
}
use ck3_llm_chronicler.Snapshot.{CharacterSnapshot, MemorySnapshot}
use ck3_llm_chronicler.Events.{Payload, DeathPayload, death, marriage}
use ck3_llm_chronicler.Diff.Types.{DiffEvent}
use ck3_llm_chronicler.Diff.Make.{
  make_death, make_travel, make_marriage, make_divorce, make_nickname, make_adventurer_started,
  make_adventurer_ended, make_government_changed, make_vanilla_memory, make_decision_taken,
}
use ck3_llm_chronicler.Diff.Character.{
  diff_one_character, diff_death, diff_travel, diff_marriages, diff_divorces, diff_nickname,
  diff_government, diff_memories, diff_decisions, new_spouses,
}

abbrev death_in : Payload → Option DeathPayload
death_in (death p) = some p
death_in p = none

abbrev spouse_in : Payload → Option ℕ
spouse_in (marriage p) = p.spouse_character_id
spouse_in p = none

-- The death of a death event, and the spouse of a marriage event.
abbrev pub death_of : DiffEvent → Option DeathPayload
death_of e = death_in e.event.p

abbrev pub spouse_of : DiffEvent → Option ℕ
spouse_of e = spouse_in e.event.p

abbrev NoDeath : DiffEvent → Type 0
NoDeath e = death_of e ≡ none

abbrev NoMarriage : DiffEvent → Type 0
NoMarriage e = spouse_of e ≡ none

-- Neither a death nor a marriage.
abbrev IsOther : DiffEvent → Type 0
IsOther e = NoDeath e × NoMarriage e

module _ (prev curr : CharacterSnapshot) (date : String) where
  travel-IsOther : All IsOther (diff_travel prev curr date)
  unfolding diff_travel make_travel
  travel-IsOther = ground arith

  divorces-IsOther : All IsOther (diff_divorces prev curr date)
  unfolding diff_divorces make_divorce
  divorces-IsOther = All-map IsOther (λ s. make_divorce curr s date) _ (λ s. (refl, refl))

  nickname-IsOther : All IsOther (diff_nickname prev curr date)
  unfolding diff_nickname make_nickname
  nickname-IsOther = ground arith

  government-IsOther : All IsOther (diff_government prev curr date)
  unfolding diff_government make_adventurer_started make_adventurer_ended make_government_changed
  government-IsOther = ground arith

  memories-IsOther :
      (characters : Dict ℕ CharacterSnapshot) (memories : List MemorySnapshot)
      → All IsOther (diff_memories prev curr date characters memories)
  unfolding diff_memories make_vanilla_memory
  memories-IsOther characters memories =
      All-map IsOther (λ m. make_vanilla_memory curr m characters date) memories (λ m. (refl, refl))

  decisions-IsOther : All IsOther (diff_decisions prev curr date)
  unfolding diff_decisions make_decision_taken
  decisions-IsOther =
      All-map IsOther (λ d. make_decision_taken curr d.0 d.1 date) _ (λ d. (refl, refl))

  deaths-NoMarriage : All NoMarriage (diff_death prev curr date)
  unfolding diff_death make_death
  deaths-NoMarriage = ground arith

  marriages-NoDeath : All NoDeath (diff_marriages prev curr date)
  unfolding diff_marriages make_marriage
  marriages-NoDeath = All-map NoDeath (λ s. make_marriage curr s date) _ (λ s. refl)

module _ {B : Type 0} (f : DiffEvent → Option B) where
  abbrev Ignores : DiffEvent → Type 0
  Ignores e = f e ≡ none

  ignored : (xs ys : List DiffEvent) → All Ignores xs → filter_map f (xs ++ ys) ≡ filter_map f ys
  ignored [] ys h = refl
  ignored (x ∷ xs) ys (h, hs) = rw h (ignored xs ys hs)

  kept : (xs ys : List DiffEvent) → All Ignores ys → filter_map f (xs ++ ys) ≡ filter_map f xs
  kept [] ys h = ap (filter_map f) (sym (append-nil ys)) ∙ ignored ys [] h
  kept (x ∷ xs) ys h = ground (arith, kept xs ys h)

module _ {A : Type 0} {P Q : A → Type 0} where
  All-weaken : (xs : List A) → ((x : A) → P x → Q x) → All P xs → All Q xs
  All-weaken [] g h = tt
  All-weaken (x ∷ xs) g (h, hs) = (g x h, All-weaken xs g hs)

spouses-map :
    (curr : CharacterSnapshot) (date : String) (xs : List ℕ)
    → filter_map spouse_of (map (λ s. make_marriage curr s date) xs) ≡ xs
unfolding make_marriage
spouses-map curr date [] = refl
spouses-map curr date (x ∷ xs) = ap (λ (l : List ℕ). x ∷ l) (spouses-map curr date xs)

module _ (prev curr : CharacterSnapshot) (date : String) (characters : Dict ℕ CharacterSnapshot)
    (memories : List MemorySnapshot) where
  -- The parts after the marriages.
  abbrev rest_of : List DiffEvent
  rest_of =
      diff_divorces prev curr date
      ++ (diff_nickname prev curr date
          ++ (diff_government prev curr date
              ++ (diff_memories prev curr date characters memories
                  ++ diff_decisions prev curr date)))

  rest-IsOther : All IsOther rest_of
  rest-IsOther = All-append IsOther _ _ (divorces-IsOther prev curr date) (
      All-append IsOther _ _ (nickname-IsOther prev curr date) (
        All-append IsOther _ _ (government-IsOther prev curr date) (
          All-append IsOther _ _ (memories-IsOther prev curr date characters memories)
            (decisions-IsOther prev curr date))))

  pub deaths-diff_one_character :
      filter_map death_of (diff_one_character prev curr date characters memories)
      ≡ filter_map death_of (diff_death prev curr date)
  unfolding diff_one_character
  deaths-diff_one_character = kept death_of (diff_death prev curr date) _ (
      All-append NoDeath _ _
        (All-weaken (diff_travel prev curr date) (λ e h. h.0) (travel-IsOther prev curr date))
        (All-append NoDeath _ _ (marriages-NoDeath prev curr date)
          (All-weaken rest_of (λ e h. h.0) rest-IsOther)))

  pub spouses-diff_one_character :
      filter_map spouse_of (diff_one_character prev curr date characters memories)
      ≡ new_spouses prev curr
  unfolding diff_one_character diff_marriages
  spouses-diff_one_character =
      ignored spouse_of (diff_death prev curr date) _ (deaths-NoMarriage prev curr date)
      ∙ (ignored spouse_of (diff_travel prev curr date) _
            (All-weaken (diff_travel prev curr date) (λ e h. h.1) (travel-IsOther prev curr date))
          ∙ (kept spouse_of (diff_marriages prev curr date) rest_of
                (All-weaken rest_of (λ e h. h.1) rest-IsOther)
              ∙ spouses-map curr date (new_spouses prev curr)))
