-- ===== src/Diff/Snapshots/Order.antt =====
-- The order in which `diff_snapshots` walks its set of ids does not show in the result.
use mathlib.Core.List.{Permᴰ, Perm}
use mathlib.Core.Logic.{∥∥₁_elim}
use native.Mathlib.Decide.{ℕ_discrete}
use text.Mathlib.TextEquality.{IsScalar-prop}
use ck3_llm_chronicler.Base.{
  ℕ, String, List, [], ◌∷◌, ◌++◌, Option, ◌≡◌, ◌≢◌, refl, sym, ap, ◌∙◌, arith, All, inl, inr,
  pair_order, nat_order, text_order, sort_by, insert_all, sort_by-append, insert_all_comm, Apart,
  Bool-cases,
}
use ck3_llm_chronicler.Snapshot.{SaveSnapshot}
use ck3_llm_chronicler.Diff.Types.{DiffEvent, Result, ok, raise, ◌>>=◌}
use ck3_llm_chronicler.Diff.Owner.{Owned, OwnedResult}
use ck3_llm_chronicler.Diff.Snapshots.{sort_key, mismatched, id_events, ids_events, diff_over}
use ck3_llm_chronicler.Diff.Snapshots.Loop.{IsKeyed, owned_id}

-- Events of two different characters never tie in the final sort.
ne-Apart : (i j : ℕ) (x y : DiffEvent) → i ≢ j → x.event.c ≡ i → y.event.c ≡ j → Apart sort_key x y
ne-Apart i j x y ne hx hy = ground arith

blocks-Apart :
    (i j : ℕ) (xs ys : List DiffEvent)
    → i ≢ j
    → Owned i xs
    → Owned j ys
    → All (λ x. All (Apart sort_key x) ys) xs
blocks-Apart i j [] ys ne h k = tt
blocks-Apart i j (x ∷ xs) ys ne (hx, h) k = (row ys k, blocks-Apart i j xs ys ne h k)
  where
    row : (ys : List DiffEvent) → Owned j ys → All (Apart sort_key x) ys
    row [] k = tt
    row (y ∷ ys) (hy, k) = (ne-Apart i j x y ne hx hy, row ys k)

-- Both loops raise, or they emit the same events up to the final sort.
SameSorted : Result (List DiffEvent) → Result (List DiffEvent) → Type 0
SameSorted (ok a) (ok b) = sort_by sort_key a ≡ sort_by sort_key b
SameSorted (ok a) (raise e) = ⊥
SameSorted (raise e) (ok b) = ⊥
SameSorted (raise e) (raise f) = Unit

DiffEvents-set : IsSet (List DiffEvent)
DiffEvents-set = hlevel IsScalar-prop

SameSorted-prop : (r s : Result (List DiffEvent)) → IsProp (SameSorted r s)
unfolding SameSorted
SameSorted-prop (ok a) (ok b) = DiffEvents-set _ _
SameSorted-prop (ok a) (raise e) = hlevel
SameSorted-prop (raise e) (ok b) = hlevel
SameSorted-prop (raise e) (raise f) = hlevel

SameSorted-refl : (r : Result (List DiffEvent)) → SameSorted r r
unfolding SameSorted
SameSorted-refl (ok a) = refl
SameSorted-refl (raise e) = tt

SameSorted-trans :
    (r s t : Result (List DiffEvent)) → SameSorted r s → SameSorted s t → SameSorted r t
unfolding SameSorted
SameSorted-trans (ok a) (ok b) (ok c) h k = h ∙ k
SameSorted-trans (raise a) (raise b) (raise c) h k = tt
SameSorted-trans (ok a) (ok b) (raise c) h k = k
SameSorted-trans (ok a) (raise b) t h k = absurd h
SameSorted-trans (raise a) (ok b) t h k = absurd h
SameSorted-trans (raise a) (raise b) (ok c) h k = k

-- One more block in front, and two blocks that trade places.
abbrev then_block : Result (List DiffEvent) → Result (List DiffEvent) → Result (List DiffEvent)
then_block m k = m >>= λ events. k >>= λ later. ok (events ++ later)

SameSorted-then_block :
    (m r s : Result (List DiffEvent))
    → SameSorted r s
    → SameSorted (then_block m r) (then_block m s)
unfolding SameSorted
SameSorted-then_block (raise e) r s h = tt
SameSorted-then_block (ok xs) (ok a) (ok b) h =
    sort_by-append sort_key xs a
    ∙ ap (insert_all sort_key xs) h
    ∙ sym (sort_by-append sort_key xs b)
SameSorted-then_block (ok xs) (ok a) (raise b) h = h
SameSorted-then_block (ok xs) (raise a) (ok b) h = h
SameSorted-then_block (ok xs) (raise a) (raise b) h = tt

SameSorted-swap :
    (i j : ℕ) (m n r : Result (List DiffEvent))
    → i ≢ j
    → OwnedResult i m
    → OwnedResult j n
    → SameSorted (then_block m (then_block n r)) (then_block n (then_block m r))
unfolding SameSorted
SameSorted-swap i j (ok xs) (ok ys) (ok zs) ne h k =
    sort_by-append sort_key xs (ys ++ zs)
    ∙ ap (insert_all sort_key xs) (sort_by-append sort_key ys zs)
    ∙ insert_all_comm sort_key xs ys (sort_by sort_key zs) (blocks-Apart i j xs ys ne h k)
    ∙ ap (insert_all sort_key ys) (sym (sort_by-append sort_key xs zs))
    ∙ sym (sort_by-append sort_key ys (xs ++ zs))
SameSorted-swap i j (ok xs) (ok ys) (raise e) ne h k = tt
SameSorted-swap i j (ok xs) (raise e) (ok zs) ne h k = tt
SameSorted-swap i j (ok xs) (raise e) (raise f) ne h k = tt
SameSorted-swap i j (raise e) (ok ys) (ok zs) ne h k = tt
SameSorted-swap i j (raise e) (ok ys) (raise f) ne h k = tt
SameSorted-swap i j (raise e) (raise f) r ne h k = tt

module _ (strip : Option String → Option String) (prev curr : SaveSnapshot)
    (tracked : Option (List ℕ)) (keyed : IsKeyed curr) where
  abbrev loop : List ℕ → Result (List DiffEvent)
  loop = ids_events strip prev curr tracked

  loop_swap : (i j : ℕ) (l : List ℕ) → SameSorted (loop (j ∷ i ∷ l)) (loop (i ∷ j ∷ l))
  unfolding ids_events
  loop_swap i j l = elim (ℕ_discrete j i) [
    | yes e ↦ rw e (SameSorted-refl (loop (i ∷ i ∷ l)))
    | no ne ↦
        SameSorted-swap j i (id_events strip prev curr tracked j)
          (id_events strip prev curr tracked i) (loop l) ne
          (owned_id strip prev curr tracked keyed j) (owned_id strip prev curr tracked keyed i)
  ]

  loop-permᴰ : {l m : List ℕ} → Permᴰ l m → SameSorted (loop l) (loop m)
  unfolding ids_events
  loop-permᴰ Permᴰ.nil = SameSorted-refl (loop [])
  loop-permᴰ (Permᴰ.cons {b = b} {l₁ = l₁} {l₂ = l₂} e p) = rw e (
      SameSorted-then_block (id_events strip prev curr tracked b) (loop l₁) (loop l₂)
        (loop-permᴰ p))
  loop-permᴰ (Permᴰ.swap {a' = a'} {b' = b'} {l = l} e f) = rw e (rw f (loop_swap a' b' l))
  loop-permᴰ (Permᴰ.trans {l₁ = l₁} {l₂ = l₂} {l₃ = l₃} p q) =
      SameSorted-trans (loop l₁) (loop l₂) (loop l₃) (loop-permᴰ p) (loop-permᴰ q)

  loop-perm : {l m : List ℕ} → Perm l m → SameSorted (loop l) (loop m)
  loop-perm {l} {m} p = ∥∥₁_elim p (SameSorted-prop (loop l) (loop m)) (λ d. loop-permᴰ d)

abbrev sorted_result : Result (List DiffEvent) → Result (List DiffEvent)
sorted_result r = r >>= λ out. ok (sort_by sort_key out)

finish :
    (a b : Result (List DiffEvent)) (out : List DiffEvent)
    → SameSorted a b
    → sorted_result a ≡ ok out
    → sorted_result b ≡ ok out
unfolding SameSorted
finish (ok a) (ok b) out h k = rw (← h) k
finish (ok a) (raise e) out h k = absurd h
finish (raise e) b out h k = cc

-- However the set of ids is walked, a diff that succeeds returns the same list of events: the final
-- sort makes the result independent of the iteration order. `curr` keeps each record under its id.
pub diff_over-perm :
    (strip : Option String → Option String) (prev curr : SaveSnapshot) (tracked : Option (List ℕ))
    (ids ids' : List ℕ) (out : List DiffEvent)
    → IsKeyed curr
    → Perm ids ids'
    → diff_over strip prev curr tracked ids ≡ ok out
    → diff_over strip prev curr tracked ids' ≡ ok out
unfolding diff_over
diff_over-perm strip prev curr tracked ids ids' out keyed p h =
    elim (Bool-cases (mismatched prev curr)) [
      | inl e ↦ absurd (ground arith)
      | inr e ↦ rw e (
          finish (ids_events strip prev curr tracked ids) (ids_events strip prev curr tracked ids')
            out (loop-perm strip prev curr tracked keyed p) (rw e at h))
    ]
