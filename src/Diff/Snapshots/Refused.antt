-- ===== src/Diff/Snapshots/Refused.antt =====
-- save/diff.py: when `diff_snapshots` raises, and what.
use ck3_llm_chronicler.Base.{
  ℕ, String, true, false, List, Option, ◌≡◌, ◌≢◌, ◌↔◌, refl, sym, ◌∙◌, arith, inl, inr, text_order,
  ◌≡?◌, ≡?_refl, Bool-cases,
}
use ck3_llm_chronicler.Snapshot.{SaveSnapshot}
use ck3_llm_chronicler.Diff.Types.{Error, Result, ok, raise, playthrough_mismatch}
use ck3_llm_chronicler.Diff.Snapshots.{mismatched, diff_over, diff_snapshots}
use ck3_llm_chronicler.Diff.Snapshots.Total.{
  IsIndexed, diff_snapshots_total, diff_snapshots_mismatch,
}

unequal : (s t : String) → (s ≡? t) ≡ false → s ≢ t
unequal s t h e =
    let same : (s ≡? t) ≡ true = rw (← e) (≡?_refl s) in let bad : false ≡ true = sym h ∙ same in cc

ok-not-raise : {A : Type 0} (a : A) (e : Error) → ok a ≡ raise e → ⊥
ok-not-raise a e h = cc

raise-injective : {A : Type 0} (d e : Error) → Path (Result A) (raise d) (raise e) → d ≡ e
raise-injective d e h = cc

module _ (strip : Option String → Option String) (prev curr : SaveSnapshot)
    (tracked : Option (List ℕ)) where
  -- Both saves name a playthrough, and the names differ.
  abbrev pub AreOfTwo : Type 0
  AreOfTwo =
      (prev.playthrough_id ≢ "")
      × (curr.playthrough_id ≢ "")
      × (prev.playthrough_id ≢ curr.playthrough_id)

  mismatched-AreOfTwo : mismatched prev curr ≡ true → AreOfTwo
  mismatched-AreOfTwo h = (
    unequal prev.playthrough_id "" (ground (arith, h)),
    unequal curr.playthrough_id "" (ground (arith, h)),
    unequal prev.playthrough_id curr.playthrough_id (ground (arith, h)),
  )

  raised :
      mismatched prev curr ≡ true
      → diff_snapshots strip prev curr tracked
        ≡ raise (playthrough_mismatch prev.playthrough_id curr.playthrough_id)
  unfolding diff_snapshots diff_over
  raised h = rw h refl

  -- For two saves with title indexes that name only titles of their snapshot, the diff raises an error
  -- exactly if both saves name a playthrough and the names differ, and the error is then the mismatch
  -- of the two names: no `KeyError` of a title and no other error comes out of any differ.
  pub diff_snapshots_refused :
      IsIndexed prev
      → IsIndexed curr
      → (e : Error)
      → (diff_snapshots strip prev curr tracked ≡ raise e)
        ↔ ((e ≡ playthrough_mismatch prev.playthrough_id curr.playthrough_id) × AreOfTwo)
  diff_snapshots_refused hp hc e = (
    (λ h. elim (Bool-cases (mismatched prev curr)) [
      | inr same ↦
          let (out, total, sorted_out) = diff_snapshots_total strip prev curr tracked hp hc same in
          absurd (ok-not-raise out e (sym total ∙ h))
      | inl two ↦ (
        raise-injective e (playthrough_mismatch prev.playthrough_id curr.playthrough_id)
            (sym h ∙ raised two),
        mismatched-AreOfTwo two,
      )
    ]),
    λ (same, (p, c, ne)). rw same (diff_snapshots_mismatch strip prev curr tracked p c ne),
  )
