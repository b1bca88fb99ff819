-- ===== src/Diff/TitleOwner.antt =====
-- Whose events `_diff_titles` emits.
use ck3_llm_chronicler.Base.{
  ℕ, String, List, [], ◌∷◌, Option, none, some, ◌≡◌, refl, arith, All-append, get, inl, inr,
  nat_order, is_empty, Bool-cases,
}
use ck3_llm_chronicler.Snapshot.{SaveSnapshot, TitleSnapshot}
use ck3_llm_chronicler.Diff.Types.{DiffEvent, Result, ok, raise, ◌>>=◌, or_key_error}
use ck3_llm_chronicler.Diff.Titles.{
  diff_titles, gained_events, dropped_events, title_gained, title_dropped,
}
use ck3_llm_chronicler.Diff.Owner.{Owned, OwnedResult}
use ck3_llm_chronicler.Diff.SetOwner.{IsOwnedBy}

module _ (cid : ℕ) where
  pub after-Owned :
      {A : Type 0} (m : Result A) (f : A → Result (List DiffEvent))
      → ((a : A) → OwnedResult cid (f a))
      → OwnedResult cid (m >>= f)
  after-Owned (ok a) f h = h a
  after-Owned (raise e) f h = tt

  pub bind-Owned :
      (m : Result (List DiffEvent)) (f : List DiffEvent → Result (List DiffEvent))
      → OwnedResult cid m
      → ((es : List DiffEvent) → Owned cid es → OwnedResult cid (f es))
      → OwnedResult cid (m >>= f)
  bind-Owned (ok es) f h k = k es h
  bind-Owned (raise e) f h k = tt

module _ (cid : ℕ) (prev curr : SaveSnapshot) (date : String) where
  title_gained-Owned :
      (tid : ℕ) (t : TitleSnapshot) (o : Option TitleSnapshot)
      → (title_gained cid date tid t o).event.c ≡ cid
  unfolding title_gained
  title_gained-Owned tid t none = refl
  title_gained-Owned tid t (some p) = refl

  gained-Owned : (tids : List ℕ) → OwnedResult cid (gained_events cid prev curr date tids)
  unfolding gained_events
  gained-Owned [] = tt
  gained-Owned (tid ∷ rest) = after-Owned cid (or_key_error tid (get tid curr.titles)) _ (λ title.
      bind-Owned cid (gained_events cid prev curr date rest) _ (gained-Owned rest)
        (λ es h. (title_gained-Owned tid title (get tid prev.titles), h)))

  dropped-Owned : (tids : List ℕ) → OwnedResult cid (dropped_events cid prev curr date tids)
  unfolding dropped_events title_dropped
  dropped-Owned [] = tt
  dropped-Owned (tid ∷ rest) = ground (arith, dropped-Owned rest)

  pub titles-Owned : OwnedResult cid (diff_titles cid prev curr date)
  unfolding diff_titles
  titles-Owned = elim (Bool-cases (is_empty prev.titles)) [
    | inl e ↦ rw e tt
    | inr e ↦ rw e (
        bind-Owned cid (gained_events cid prev curr date _) _ (gained-Owned _) (λ gained h.
          bind-Owned cid (dropped_events cid prev curr date _) _ (dropped-Owned _)
            (λ dropped k. All-append (IsOwnedBy cid) gained dropped h k)))
  ]
