-- ===== src/Diff/Tracked.antt =====
-- The events of a filtered diff are about the tracked characters.
use ck3_llm_chronicler.Base.{
  ℕ, String, true, List, [], ◌∷◌, Option, some, ◌≡◌, subst, arith, All, All-append, All-sort_by,
  nat_order, text_order, pair_order, member, sorted, member-sorted, ≡?_refl, Bool-cases, inl, inr,
}
use ck3_llm_chronicler.Snapshot.{SaveSnapshot}
use ck3_llm_chronicler.Diff.Types.{DiffEvent, Result, ok, raise, ◌>>=◌}
use ck3_llm_chronicler.Diff.Owner.{Owned, OwnedResult}
use ck3_llm_chronicler.Diff.Snapshots.{
  sort_key, mismatched, all_ids, id_events, ids_events, diff_over, diff_snapshots,
}
use ck3_llm_chronicler.Diff.Snapshots.Loop.{IsKeyed, owned_id}

abbrev pub AboutResult : List ℕ → Result (List DiffEvent) → Type 0
AboutResult tracked (ok es) = All (λ e. member e.event.c tracked ≡ true) es
AboutResult tracked (raise e) = Unit

about_then :
    (tracked : List ℕ) (m : Result (List DiffEvent)) (f : List DiffEvent → Result (List DiffEvent))
    → AboutResult tracked m
    → ((es : List DiffEvent)
        → All (λ e. member e.event.c tracked ≡ true) es
        → AboutResult tracked (f es))
    → AboutResult tracked (m >>= f)
about_then tracked (ok es) f h k = k es h
about_then tracked (raise e) f h k = tt

Owned-about :
    (tracked : List ℕ) (cid : ℕ)
    → member cid tracked ≡ true
    → (es : List DiffEvent) → Owned cid es
    → All (λ e. member e.event.c tracked ≡ true) es
Owned-about tracked cid h [] o = tt
Owned-about tracked cid h (e ∷ es) (o, os) = (rw o h, Owned-about tracked cid h es os)

OwnedResult-about :
    (tracked : List ℕ) (cid : ℕ)
    → member cid tracked ≡ true
    → (r : Result (List DiffEvent)) → OwnedResult cid r
    → AboutResult tracked r
OwnedResult-about tracked cid h (ok es) o = Owned-about tracked cid h es o
OwnedResult-about tracked cid h (raise e) o = tt

module _ (strip : Option String → Option String) (prev curr : SaveSnapshot) (tracked : List ℕ) where
  ids-about :
      IsKeyed curr
      → (ids : List ℕ) → ((k : ℕ) → member k ids ≡ true → member k tracked ≡ true)
      → AboutResult tracked (ids_events strip prev curr (some tracked) ids)
  unfolding ids_events member
  ids-about keyed [] h = tt
  ids-about keyed (cid ∷ ids) h =
      let own = λ (e : DiffEvent). member e.event.c tracked ≡ true in
      about_then tracked (id_events strip prev curr (some tracked) cid) _
        (OwnedResult-about tracked cid (h cid (ground (arith, ≡?_refl cid))) _
          (owned_id strip prev curr (some tracked) keyed cid))
        (λ es he.
          about_then tracked (ids_events strip prev curr (some tracked) ids) _
            (ids-about keyed ids (λ k m. h k (ground arith)))
            (λ later hl. All-append own es later he hl))

  diff-about : IsKeyed curr → AboutResult tracked (diff_snapshots strip prev curr (some tracked))
  unfolding diff_snapshots diff_over all_ids
  diff-about keyed = elim (Bool-cases (mismatched prev curr)) [
    | inl h ↦ rw h tt
    | inr h ↦ rw h (
        about_then tracked (ids_events strip prev curr (some tracked) (sorted tracked)) _
          (ids-about keyed (sorted tracked) (λ k m. ground (arith, member-sorted k tracked)))
          (λ es hs.
            All-sort_by sort_key (λ (e : DiffEvent). member e.event.c tracked ≡ true) es hs))
  ]

  -- Where every record of `curr` stands under its own id, a diff that is given a set of tracked
  -- characters and succeeds returns events of those characters only.
  pub diff_snapshots_tracked :
      IsKeyed curr
      → (out : List DiffEvent) → diff_snapshots strip prev curr (some tracked) ≡ ok out
      → All (λ e. member e.event.c tracked ≡ true) out
  diff_snapshots_tracked keyed out e = subst (AboutResult tracked) e (diff-about keyed)
