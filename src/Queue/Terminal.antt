-- ===== src/Queue/Terminal.antt =====
-- A queue item ends once.
use ck3_llm_chronicler.Base.{
  ℕ, String, Bool, true, false, [], ◌∷◌, Option, none, some, ◌≡◌, refl, ap, arith, nat_order, Dict,
  get, pop, get-pop, if◌then◌else◌, ◌==◌, ==_iff, ◌≡?◌, ≡?_refl,
}
use ck3_llm_chronicler.Queue.{
  ℤ, QueueItem, NarrativeQueueState, mark_started, mark_completed, mark_failed, remove, start_item,
  complete_item, fail_item,
}
use ck3_llm_chronicler.Queue.Runs.{Call, enqueues, starts, completes, fails, removes, step}

-- The call is about the item, whose id is given.
abbrev pub names : ℕ → Call → Bool
names k (enqueues now cid kind campaign name) = false
names k (starts now id) = id == k
names k (completes now id d) = id == k
names k (fails now id message) = id == k
names k (removes id) = id == k

-- The call takes the item out of the queue.
abbrev pub ends : ℕ → Call → Bool
ends k (enqueues now cid kind campaign name) = false
ends k (starts now id) = false
ends k (completes now id d) = id == k
ends k (fails now id message) = id == k
ends k (removes id) = id == k

pop-absent : (k : ℕ) (d : Dict ℕ QueueItem) → get k d ≡ none → pop k d ≡ d
unfolding get pop
pop-absent k [] h = refl
pop-absent k ((j, v) ∷ d) h = ground (arith, pop-absent k d)

pub get-pop-same : (k : ℕ) (d : Dict ℕ QueueItem) → get k (pop k d) ≡ none
get-pop-same k d =
    let e : get k (pop k d) ≡ (if k ≡? k then none else get k d) = get-pop k k d in
    ground (arith, e, ≡?_refl k)

-- A call about an item that is not there changes nothing.
pub absent_idle :
    (k : ℕ) (c : Call) (s : NarrativeQueueState)
    → names k c ≡ true
    → get k s.items ≡ none
    → step c s ≡ s
unfolding mark_started mark_completed mark_failed start_item complete_item fail_item remove
absent_idle k (enqueues now cid kind campaign name) s h e = absurd cc
absent_idle k (starts now id) s h e = rw ((==_iff id k).0 h) (rw e refl)
absent_idle k (completes now id d) s h e = rw ((==_iff id k).0 h) (rw e refl)
absent_idle k (fails now id message) s h e = rw ((==_iff id k).0 h) (rw e refl)
absent_idle k (removes id) s h e =
    rw ((==_iff id k).0 h)
      (ap (λ (d : Dict ℕ QueueItem). record s { items = d }) (pop-absent k s.items e))

pub completed_absent :
    (now : String) (s : NarrativeQueueState) (k : ℕ) (f : Option QueueItem) (d : ℤ)
    → get k s.items ≡ f
    → get k (complete_item now s k d f).items ≡ none
unfolding complete_item
completed_absent now s k none d e = e
completed_absent now s k (some i) d e = get-pop-same k s.items

pub failed_absent :
    (now : String) (s : NarrativeQueueState) (k : ℕ) (f : Option QueueItem) (message : String)
    → get k s.items ≡ f
    → get k (fail_item now s k message f).items ≡ none
unfolding fail_item
failed_absent now s k none message e = e
failed_absent now s k (some i) message e = get-pop-same k s.items

ended_absent :
    (k : ℕ) (c : Call) (s : NarrativeQueueState) → ends k c ≡ true → get k (step c s).items ≡ none
unfolding mark_completed mark_failed remove
ended_absent k (enqueues now cid kind campaign name) s h = absurd cc
ended_absent k (starts now id) s h = absurd cc
ended_absent k (completes now id d) s h = rw ((==_iff id k).0 h) (completed_absent now s k _ d refl)
ended_absent k (fails now id message) s h =
    rw ((==_iff id k).0 h) (failed_absent now s k _ message refl)
ended_absent k (removes id) s h = rw ((==_iff id k).0 h) (get-pop-same k s.items)

-- In any state, once an item has been completed, failed or removed, a further call that starts,
-- completes, fails or removes it leaves the whole state as it is: no count, no statistic, no recent
-- item and no frame changes.
pub step-ends :
    (k : ℕ) (c later : Call) (s : NarrativeQueueState)
    → ends k c ≡ true
    → names k later ≡ true
    → step later (step c s) ≡ step c s
step-ends k c later s h h' = absent_idle k later (step c s) h' (ended_absent k c s h)
