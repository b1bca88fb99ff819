-- ===== src/Queue/Keys.antt =====
-- src/chronicler/narrative/queue_state.py: every item is held once, under its own id.
use ck3_llm_chronicler.Base.{
  ℕ, String, false, ◌||◌, List, [], ◌∷◌, ◌++◌, map, ap, Option, none, some, ◌≡◌, refl, sym, ◌∙◌,
  arith, inl, inr, All, nat_order, Dict, get, put, pop, keys, member, Distinct, ◌≡?◌, eq_of_≡?,
  Bool-cases,
}
use ck3_llm_chronicler.Queue.{
  ℤ, QueueItem, NarrativeQueueState, initial, queued_item, started, is_queued, enqueue,
  mark_started, start_item, mark_completed, complete_item, mark_failed, fail_item, remove,
}
use ck3_llm_chronicler.Queue.Runs.{Call, enqueues, starts, completes, fails, removes, step, run}

abbrev pub IsKeyed : Dict ℕ QueueItem → Type 0
IsKeyed d = All (λ e. e.0 ≡ e.1.item_id) d × Distinct (keys d)

put-own :
    (k : ℕ) (v : QueueItem) (d : Dict ℕ QueueItem)
    → k ≡ v.item_id
    → All (λ e. e.0 ≡ e.1.item_id) d
    → All (λ e. e.0 ≡ e.1.item_id) (put k v d)
unfolding put
put-own k v [] h t = (h, tt)
put-own k v ((j, w) ∷ d) h (e, t) = elim (Bool-cases (k ≡? j)) [
  | inl same ↦ rw (same, All) (sym (eq_of_≡? k j same) ∙ h, t)
  | inr other ↦ rw (other, All) (e, put-own k v d h t)
]

member-put :
    (i k : ℕ) (v : QueueItem) (d : Dict ℕ QueueItem)
    → member i (keys (put k v d)) ≡ ((i ≡? k) || member i (keys d))
unfolding put member
member-put i k v [] = refl
member-put i k v ((j, w) ∷ d) = elim (Bool-cases (k ≡? j)) [
  | inl same ↦ let eq : k ≡ j = eq_of_≡? k j same in rw same (rw eq (ground arith))
  | inr other ↦ rw other (ground (arith, member-put i k v d))
]

put-Distinct :
    (k : ℕ) (v : QueueItem) (d : Dict ℕ QueueItem) → Distinct (keys d) → Distinct (keys (put k v d))
unfolding put member
put-Distinct k v [] h = (refl, tt)
put-Distinct k v ((j, w) ∷ d) (f, h) = elim (Bool-cases (k ≡? j)) [
  | inl same ↦ rw (same, Distinct) (f, h)
  | inr other ↦
      let apart : (j ≡? k) ≡ false = ground (arith, other) in
      rw (other, Distinct) (member-put j k v d ∙ ground (arith, f, apart), put-Distinct k v d h)
]

pop-own :
    (k : ℕ) (d : Dict ℕ QueueItem)
    → All (λ e. e.0 ≡ e.1.item_id) d
    → All (λ e. e.0 ≡ e.1.item_id) (pop k d)
unfolding pop
pop-own k [] t = tt
pop-own k ((j, w) ∷ d) (e, t) = elim (Bool-cases (k ≡? j)) [
  | inl same ↦ rw (same, All) (pop-own k d t)
  | inr other ↦ rw (other, All) (e, pop-own k d t)
]

member-pop :
    (i k : ℕ) (d : Dict ℕ QueueItem) → member i (keys d) ≡ false → member i (keys (pop k d)) ≡ false
unfolding pop member
member-pop i k [] h = refl
member-pop i k ((j, w) ∷ d) h = ground (arith, h, member-pop i k d)

pop-Distinct : (k : ℕ) (d : Dict ℕ QueueItem) → Distinct (keys d) → Distinct (keys (pop k d))
unfolding pop
pop-Distinct k [] h = tt
pop-Distinct k ((j, w) ∷ d) (f, h) = elim (Bool-cases (k ≡? j)) [
  | inl same ↦ rw (same, Distinct) (pop-Distinct k d h)
  | inr other ↦ rw (other, Distinct) (member-pop j k d f, pop-Distinct k d h)
]

get-own :
    (k : ℕ) (v : QueueItem) (d : Dict ℕ QueueItem)
    → All (λ e. e.0 ≡ e.1.item_id) d
    → get k d ≡ some v
    → k ≡ v.item_id
unfolding get
get-own k v [] t h = absurd cc
get-own k v ((j, w) ∷ d) (e, t) h = elim (Bool-cases (k ≡? j)) [
  | inl same ↦
      let eq : k ≡ j = eq_of_≡? k j same in
      let val : w ≡ v = ground (arith, h, same) in rw (← val) (eq ∙ e)
  | inr other ↦ get-own k v d t (ground (arith, h, other))
]

put-IsKeyed :
    (k : ℕ) (v : QueueItem) (d : Dict ℕ QueueItem) → k ≡ v.item_id → IsKeyed d → IsKeyed (put k v d)
put-IsKeyed k v d h (t, u) = (put-own k v d h t, put-Distinct k v d u)

pub pop-IsKeyed : (k : ℕ) (d : Dict ℕ QueueItem) → IsKeyed d → IsKeyed (pop k d)
pop-IsKeyed k d (t, u) = (pop-own k d t, pop-Distinct k d u)

abbrev pub values : Dict ℕ QueueItem → List QueueItem
values d = map (λ e. e.1) d

pub put-values :
    (k : ℕ) (item : QueueItem) (d : Dict ℕ QueueItem)
    → get k d ≡ none
    → values (put k item d) ≡ values d ++ (item ∷ [])
unfolding put get
put-values k item [] h = refl
put-values k item ((j, w) ∷ d) h = elim (Bool-cases (k ≡? j)) [
  | inl e ↦ absurd (ground (arith, e, h))
  | inr e ↦
      let g : get k d ≡ none = ground (arith, e, h) in
      rw e (ap (λ (l : List QueueItem). w ∷ l) (put-values k item d g))
]

module _ (now : String) (s : NarrativeQueueState) (h : IsKeyed s.items) where
  start_item-IsKeyed :
      (i : ℕ) (found : Option QueueItem)
      → get i s.items ≡ found
      → IsKeyed (start_item now s i found).items
  unfolding start_item
  start_item-IsKeyed i none e = h
  start_item-IsKeyed i (some item) e = elim (Bool-cases (is_queued item.status)) [
    | inr q ↦ rw q h
    | inl q ↦ rw q (put-IsKeyed i (started now s item) s.items (get-own i item s.items h.0 e) h)
  ]

  complete_item-IsKeyed :
      (i : ℕ) (d : ℤ) (found : Option QueueItem) → IsKeyed (complete_item now s i d found).items
  unfolding complete_item
  complete_item-IsKeyed i d none = h
  complete_item-IsKeyed i d (some item) = pop-IsKeyed i s.items h

  fail_item-IsKeyed :
      (i : ℕ) (m : String) (found : Option QueueItem) → IsKeyed (fail_item now s i m found).items
  unfolding fail_item
  fail_item-IsKeyed i m none = h
  fail_item-IsKeyed i m (some item) = pop-IsKeyed i s.items h

step-IsKeyed : (c : Call) (s : NarrativeQueueState) → IsKeyed s.items → IsKeyed (step c s).items
unfolding enqueue mark_started mark_completed mark_failed remove
step-IsKeyed (enqueues now cid kind campaign name) s h =
    put-IsKeyed s.next_id (queued_item now s cid kind campaign name) s.items refl h
step-IsKeyed (starts now i) s h = start_item-IsKeyed now s h i (get i s.items) refl
step-IsKeyed (completes now i d) s h = complete_item-IsKeyed now s h i d (get i s.items)
step-IsKeyed (fails now i m) s h = fail_item-IsKeyed now s h i m (get i s.items)
step-IsKeyed (removes i) s h = pop-IsKeyed i s.items h

run-keeps-keys :
    (calls : List Call) (s : NarrativeQueueState) → IsKeyed s.items → IsKeyed (run calls s).items
run-keeps-keys [] s h = h
run-keeps-keys (c ∷ calls) s h = run-keeps-keys calls (step c s) (step-IsKeyed c s h)

-- After any calls from the empty queue, every item is held once, under its own id.
pub run-IsKeyed :
    (capacity window : ℕ) (calls : List Call) → IsKeyed (run calls (initial capacity window)).items
unfolding initial
run-IsKeyed capacity window calls = run-keeps-keys calls (initial capacity window) (tt, tt)
