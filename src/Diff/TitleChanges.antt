-- ===== src/Diff/TitleChanges.antt =====
-- The title events of a step say what became of the titles that a character holds.
use ck3_llm_chronicler.Base.{
  ℕ, String, false, List, [], ◌∷◌, ◌++◌, map, Option, none, some, ◌≡◌, refl, arith, nat_order,
  member, sorted, difference, filter_map, get, is_empty,
}
use ck3_llm_chronicler.Snapshot.{SaveSnapshot, TitleSnapshot}
use ck3_llm_chronicler.Events.{title_acquired, title_relinquished, title_created}
use ck3_llm_chronicler.Diff.Types.{DiffEvent, Result, ok, raise, ◌>>=◌, or_key_error}
use ck3_llm_chronicler.Diff.Elements.{
  Change, gains, loses, replay, replay-difference, filter_map-append,
}
use ck3_llm_chronicler.Diff.Titles.{
  diff_titles, gained_events, dropped_events, held_titles, title_gained, title_dropped,
}

abbrev pub title_change : DiffEvent → Option Change
title_change e = elim e.event.p [
  | title_created r ↦ some (gains r.title_id)
  | title_acquired r ↦ some (gains r.title_id)
  | title_relinquished r ↦ some (loses r.title_id)
  | _ ↦ none
]

-- What a bind returned came of what its first part returned.
bind_ok :
    {A B : Type 0} (m : Result A) (f : A → Result B) (b : B)
    → (m >>= f) ≡ ok b
    → (a : A) × (m ≡ ok a) × (f a ≡ ok b)
bind_ok (ok a) f b e = (a, refl, e)
bind_ok (raise x) f b e = absurd cc

found_ok : {A : Type 0} (k : ℕ) (o : Option A) (a : A) → or_key_error k o ≡ ok a → o ≡ some a
found_ok k none a e = absurd cc
found_ok k (some b) a e = cc

filter_map-cons :
    {A B : Type 0} (f : A → Option B) (x : A) (xs : List A) (b : B) (bs : List B)
    → f x ≡ some b
    → filter_map f xs ≡ bs
    → filter_map f (x ∷ xs) ≡ b ∷ bs
filter_map-cons f x xs b bs e e' = ground (arith, e, e')

module _ (cid : ℕ) (prev curr : SaveSnapshot) (date : String) where
  gained_change :
      (tid : ℕ) (t : TitleSnapshot) (p : Option TitleSnapshot)
      → title_change (title_gained cid date tid t p) ≡ some (gains tid)
  unfolding title_gained
  gained_change tid t none = refl
  gained_change tid t (some p) = refl

  gained_changes :
      (tids : List ℕ) (es : List DiffEvent)
      → gained_events cid prev curr date tids ≡ ok es
      → filter_map title_change es ≡ map gains tids
  unfolding gained_events
  gained_changes [] es e = let n : [] ≡ es = cc in rw (← n) refl
  gained_changes (tid ∷ tids) es e =
      let (t, g, e') = bind_ok (or_key_error tid (get tid curr.titles)) _ es e in
      let (later, r, e'') = bind_ok (gained_events cid prev curr date tids) _ es e' in
      let n : title_gained cid date tid t (get tid prev.titles) ∷ later ≡ es = cc in
      rw (← n) (
        filter_map-cons title_change (title_gained cid date tid t (get tid prev.titles)) later
          (gains tid) (map gains tids) (gained_change tid t (get tid prev.titles))
          (gained_changes tids later r))

  dropped_changes :
      (tids : List ℕ) (es : List DiffEvent)
      → dropped_events cid prev curr date tids ≡ ok es
      → filter_map title_change es ≡ map loses tids
  unfolding dropped_events title_dropped
  dropped_changes [] es e = let n : [] ≡ es = cc in rw (← n) refl
  dropped_changes (tid ∷ tids) es e =
      let (t, g, e') = bind_ok (or_key_error tid (get tid prev.titles)) _ es e in
      let (later, r, e'') = bind_ok (dropped_events cid prev curr date tids) _ es e' in
      let n : title_dropped cid date tid t (get tid curr.titles) ∷ later ≡ es = cc in
      rw (← n) (rw (dropped_changes tids later r) refl)

  replayed :
      (x : ℕ) (ph ch : List ℕ) (gained dropped : List DiffEvent)
      → gained_events cid prev curr date (sorted (difference ch ph)) ≡ ok gained
      → dropped_events cid prev curr date (sorted (difference ph ch)) ≡ ok dropped
      → member x (replay (filter_map title_change (gained ++ dropped)) ph) ≡ member x ch
  replayed x ph ch gained dropped g d =
      rw
        (
          filter_map-append title_change gained dropped,
          gained_changes (sorted (difference ch ph)) gained g,
          dropped_changes (sorted (difference ph ch)) dropped d,
        )
        (replay-difference x ph ch)

  -- Where the first save lists titles, the title events of a step that succeeds, replayed in their
  -- order on the titles that the character held in the first save, give exactly the titles that it
  -- holds in the second.
  pub diff_titles_replayed :
      (es : List DiffEvent) (x : ℕ)
      → is_empty prev.titles ≡ false
      → diff_titles cid prev curr date ≡ ok es
      → member x (replay (filter_map title_change es) (held_titles cid prev))
        ≡ member x (held_titles cid curr)
  unfolding diff_titles
  diff_titles_replayed es x h e =
      let ph = held_titles cid prev in
      let ch = held_titles cid curr in
      let e₀ = rw h at e in
      let (gained, g, e₁) =
        bind_ok (gained_events cid prev curr date (sorted (difference ch ph))) _ es e₀ in
      let (dropped, d, e₂) =
        bind_ok (dropped_events cid prev curr date (sorted (difference ph ch))) _ es e₁ in
      let n : gained ++ dropped ≡ es = cc in rw (← n) (replayed x ph ch gained dropped g d)
