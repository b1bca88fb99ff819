-- ===== src/Queue/Numbers.antt =====
-- src/chronicler/narrative/queue_state.py: no item is held under an id that is still to be given.
use ck3_llm_chronicler.Base.{
  ℕ, ◌+◌, ◌≤◌, String, Bool-cases, inl, inr, List, [], ◌∷◌, Option, none, some, if◌then◌else◌, ◌≡◌,
  refl, arith, nat_order, Dict, get, put, pop, get-put, get-pop, ◌≡?◌, eq_of_≡?,
}
use ck3_llm_chronicler.Queue.{
  ℤ, QueueItem, NarrativeQueueState, initial, queued_item, started, is_queued, enqueue,
  mark_started, start_item, mark_completed, complete_item, mark_failed, fail_item, remove,
}
use ck3_llm_chronicler.Queue.Runs.{Call, enqueues, starts, completes, fails, removes, step, run}

abbrev pub Unused : ℕ → Dict ℕ QueueItem → Type 0
Unused n d = (k : ℕ) → n ≤ k → get k d ≡ none

put-Unused :
    (n : ℕ) (item : QueueItem) (d : Dict ℕ QueueItem) → Unused n d → Unused (n + 1) (put n item d)
put-Unused n item d u k h =
    let g : get k (put n item d) ≡ (if k ≡? n then some item else get k d) = get-put n k item d in
    ground (arith, g, u k (omega arith), eq_of_≡? k n)

put_held-Unused :
    (n j : ℕ) (item old : QueueItem) (d : Dict ℕ QueueItem)
    → get j d ≡ some old
    → Unused n d
    → Unused n (put j item d)
put_held-Unused n j item old d e u k h =
    let g : get k (put j item d) ≡ (if k ≡? j then some item else get k d) = get-put j k item d in
    elim (Bool-cases (k ≡? j)) [
      | inr other ↦ ground (arith, g, other, u k h)
      | inl same ↦
          let eq : k ≡ j = eq_of_≡? k j same in
          let absent : get j d ≡ none = rw (← eq) (u k h) in absurd cc
    ]

pub pop-Unused : (n j : ℕ) (d : Dict ℕ QueueItem) → Unused n d → Unused n (pop j d)
pop-Unused n j d u k h =
    let g : get k (pop j d) ≡ (if k ≡? j then none else get k d) = get-pop j k d in
    ground (arith, g, u k h)

abbrev pub IsNumbered : NarrativeQueueState → Type 0
IsNumbered s = Unused s.next_id s.items

start_item-IsNumbered :
    (now : String) (s : NarrativeQueueState) (item_id : ℕ) (found : Option QueueItem)
    → get item_id s.items ≡ found
    → IsNumbered s
    → IsNumbered (start_item now s item_id found)
unfolding start_item
start_item-IsNumbered now s item_id none e u = u
start_item-IsNumbered now s item_id (some item) e u = elim (Bool-cases (is_queued item.status)) [
  | inr h ↦ rw h u
  | inl h ↦ rw h (put_held-Unused s.next_id item_id (started now s item) item s.items e u)
]

complete_item-IsNumbered :
    (now : String) (s : NarrativeQueueState) (item_id : ℕ) (d : ℤ) (found : Option QueueItem)
    → IsNumbered s
    → IsNumbered (complete_item now s item_id d found)
unfolding complete_item
complete_item-IsNumbered now s item_id d none u = u
complete_item-IsNumbered now s item_id d (some item) u = pop-Unused s.next_id item_id s.items u

fail_item-IsNumbered :
    (now : String) (s : NarrativeQueueState) (item_id : ℕ) (m : String) (found : Option QueueItem)
    → IsNumbered s
    → IsNumbered (fail_item now s item_id m found)
unfolding fail_item
fail_item-IsNumbered now s item_id m none u = u
fail_item-IsNumbered now s item_id m (some item) u = pop-Unused s.next_id item_id s.items u

pub enqueue-IsNumbered :
    (now : String) (s : NarrativeQueueState) (cid : ℕ) (kind : String)
    (campaign name : Option String)
    → IsNumbered s
    → IsNumbered (enqueue now s cid kind campaign name)
unfolding enqueue
enqueue-IsNumbered now s cid kind campaign name u =
    put-Unused s.next_id (queued_item now s cid kind campaign name) s.items u

step-IsNumbered : (c : Call) (s : NarrativeQueueState) → IsNumbered s → IsNumbered (step c s)
unfolding mark_started mark_completed mark_failed remove
step-IsNumbered (enqueues now cid kind campaign name) s u =
    enqueue-IsNumbered now s cid kind campaign name u
step-IsNumbered (starts now i) s u = start_item-IsNumbered now s i (get i s.items) refl u
step-IsNumbered (completes now i d) s u = complete_item-IsNumbered now s i d (get i s.items) u
step-IsNumbered (fails now i m) s u = fail_item-IsNumbered now s i m (get i s.items) u
step-IsNumbered (removes i) s u = pop-Unused s.next_id i s.items u

run-keeps : (calls : List Call) (s : NarrativeQueueState) → IsNumbered s → IsNumbered (run calls s)
run-keeps [] s u = u
run-keeps (c ∷ calls) s u = run-keeps calls (step c s) (step-IsNumbered c s u)

-- After any calls from the empty queue, every id from the next one on is free.
pub run-IsNumbered :
    (capacity window : ℕ) (calls : List Call) → IsNumbered (run calls (initial capacity window))
unfolding initial get
run-IsNumbered capacity window calls = run-keeps calls (initial capacity window) (λ k h. refl)
