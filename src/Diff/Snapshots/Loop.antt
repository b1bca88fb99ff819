-- ===== src/Diff/Snapshots/Loop.antt =====
-- What one round of the loop of `diff_snapshots` emits, and what the whole loop does.
use ck3_llm_chronicler.Base.{
  ℕ, String, List, [], ◌∷◌, ◌++◌, Option, none, some, ◌≡◌, refl, sym, ◌∙◌, subst, arith, All,
  All-append, Dict, get, flat_map, Bool-cases, ◌≡?◌, eq_of_≡?, inl, inr, nat_order,
}
use ck3_llm_chronicler.Snapshot.{CharacterSnapshot, SaveSnapshot}
use ck3_llm_chronicler.Diff.Types.{DiffEvent}
use ck3_llm_chronicler.Diff.Make.{make_death}
use ck3_llm_chronicler.Diff.Character.{new_memories, diff_one_character}
use ck3_llm_chronicler.Diff.Attributes.{
  diff_traits, diff_concubines, diff_modifiers, diff_perks, diff_lifestyle_commits,
  diff_miscarriage, diff_state_changes, trait_id_by_name, pregnant_trait_name,
}
use ck3_llm_chronicler.Diff.Titles.{diff_titles}
use ck3_llm_chronicler.Diff.Streams.{stream_differs}
use ck3_llm_chronicler.Diff.Owner.{
  Owned, OwnedResult, one_character-Owned, traits-Owned, concubines-Owned, modifiers-Owned,
  perks-Owned, lifestyle_commits-Owned, miscarriage-Owned, state_changes-Owned,
}
use ck3_llm_chronicler.Diff.StreamOwner.{streams-Owned}
use ck3_llm_chronicler.Diff.TitleOwner.{titles-Owned, bind-Owned}
use ck3_llm_chronicler.Diff.Snapshots.{pair_events, first_observed, character_events, id_events}

-- Each record is stored under its own id.
abbrev pub IsKeyed : SaveSnapshot → Type 0
IsKeyed s = (cid : ℕ) (c : CharacterSnapshot) → get cid s.characters ≡ some c → c.ck3_id ≡ cid

-- It is enough that each item of the dict has its record's id for its key.
pub items-IsKeyed :
    (d : Dict ℕ CharacterSnapshot)
    → All (λ e. e.1.ck3_id ≡ e.0) d
    → (cid : ℕ) (c : CharacterSnapshot) → get cid d ≡ some c
    → c.ck3_id ≡ cid
unfolding get
items-IsKeyed [] h cid c e = absurd cc
items-IsKeyed ((k, r) ∷ d) (h, hs) cid c e = elim (Bool-cases (cid ≡? k)) [
  | inl same ↦ let found : r ≡ c = ground arith in rw (← found) (h ∙ sym (eq_of_≡? cid k same))
  | inr other ↦ items-IsKeyed d hs cid c (ground arith)
]

module _ (strip : Option String → Option String) (prev curr : SaveSnapshot)
    (tracked : Option (List ℕ)) where
  attribute_events : CharacterSnapshot → CharacterSnapshot → List DiffEvent
  attribute_events p c =
      let date = curr.current_date in
      diff_traits p c curr.traits_lookup date
      ++ (diff_concubines p c curr.characters date
          ++ (diff_modifiers p c date
              ++ (diff_perks p c date
                  ++ (diff_lifestyle_commits p c date
                      ++ (diff_miscarriage p c
                            (trait_id_by_name pregnant_trait_name curr.traits_lookup) date
                            (new_memories p c)
                          ++ diff_state_changes p c curr.houses_lookup curr.cultures_lookup
                              curr.faiths_lookup date)))))

  attributes-Owned : (p c : CharacterSnapshot) → Owned c.ck3_id (attribute_events p c)
  unfolding attribute_events
  attributes-Owned p c =
      let own = λ (e : DiffEvent). e.event.c ≡ c.ck3_id in
      let date = curr.current_date in
      All-append own (diff_traits p c curr.traits_lookup date) _ (traits-Owned p c _ date) (
        All-append own (diff_concubines p c curr.characters date) _ (concubines-Owned p c _ date) (
          All-append own (diff_modifiers p c date) _ (modifiers-Owned p c date) (
            All-append own (diff_perks p c date) _ (perks-Owned p c date) (
              All-append own (diff_lifestyle_commits p c date) _ (lifestyle_commits-Owned p c date)
                (All-append own (diff_miscarriage p c _ date _) _ (miscarriage-Owned p c _ date _)
                  (state_changes-Owned p c _ _ _ date))))))

  pair-Owned :
      (cid : ℕ) (p c : CharacterSnapshot)
      → c.ck3_id ≡ cid
      → OwnedResult cid (pair_events strip prev curr tracked cid p c)
  unfolding pair_events attribute_events
  pair-Owned cid p c e =
      let own = λ (ev : DiffEvent). ev.event.c ≡ cid in
      let date = curr.current_date in
      bind-Owned cid (diff_titles cid prev curr date) _ (titles-Owned cid prev curr date)
        (λ titles h.
          All-append own (diff_one_character p c date curr.characters (new_memories p c)) _
            (subst (λ k. Owned k (diff_one_character p c date curr.characters (new_memories p c))) e
              (one_character-Owned p c date curr.characters (new_memories p c)))
            (All-append own titles _ h (
              All-append own
                (flat_map (λ differ. differ cid c prev curr date) (stream_differs strip)) _
                (streams-Owned strip cid c prev curr date)
                (subst (λ k. Owned k (attribute_events p c)) e (attributes-Owned p c)))))

  first-Owned : (c : CharacterSnapshot) → Owned c.ck3_id (first_observed strip prev curr tracked c)
  unfolding first_observed make_death
  first-Owned c = ground arith

  character-Owned :
      (cid : ℕ) (p c : Option CharacterSnapshot)
      → ((r : CharacterSnapshot) → c ≡ some r → r.ck3_id ≡ cid)
      → OwnedResult cid (character_events strip prev curr tracked cid p c)
  unfolding character_events
  character-Owned cid p none h = tt
  character-Owned cid none (some c) h =
      subst (λ k. Owned k (first_observed strip prev curr tracked c)) (h c refl) (first-Owned c)
  character-Owned cid (some p) (some c) h = pair-Owned cid p c (h c refl)

  -- One round emits events of its own character only.
  pub owned_id : IsKeyed curr → (cid : ℕ) → OwnedResult cid (id_events strip prev curr tracked cid)
  unfolding id_events
  owned_id keyed cid =
      character-Owned cid (get cid prev.characters) (get cid curr.characters) (keyed cid)
