-- ===== src/Scheduler/Outcomes.antt =====
-- What the task of an item leaves of it: an ended item is out of the queue and counted once.
use ck3_llm_chronicler.Base.{
  ℕ, ◌+◌, String, none, some, ◌≡◌, refl, arith, inl, inr, nat_order, get, put, get-put, ==_refl,
  ≡?_refl, ◌≡?◌, Bool-cases, if◌then◌else◌,
}
use ck3_llm_chronicler.Queue.{
  ℤ, QueueItem, NarrativeQueueState, mark_started, mark_completed, mark_failed, start_item,
  complete_item, fail_item, is_queued, started,
}
use ck3_llm_chronicler.Queue.Runs.{fails}
use ck3_llm_chronicler.Queue.Terminal.{absent_idle, get-pop-same}
use ck3_llm_chronicler.Scheduler.{
  TaskOutcome, written, reported, raised, cancelled_active, cancelled_waiting, cancelled_unstarted,
  run_task,
}

-- From `s` to `t` the item has left, and so many more items are counted as completed and as failed.
abbrev pub Ends : ℕ → ℕ → ℕ → NarrativeQueueState → NarrativeQueueState → Type 0
Ends k completed failed s t =
    (get k t.items ≡ none)
    × (t.completed_count ≡ s.completed_count + completed)
    × (t.failed_count ≡ s.failed_count + failed)

abbrev pub Completes : ℕ → NarrativeQueueState → NarrativeQueueState → Type 0
Completes k = Ends k 1 0

abbrev pub Fails : ℕ → NarrativeQueueState → NarrativeQueueState → Type 0
Fails k = Ends k 0 1

-- What is to become of an item by the outcome of its task.
abbrev pub Settles : TaskOutcome → ℕ → NarrativeQueueState → NarrativeQueueState → Type 0
Settles (written ms) k s t = Completes k s t
Settles (reported error) k s t = Fails k s t
Settles (raised error) k s t = Fails k s t
Settles cancelled_active k s t = Fails k s t
Settles cancelled_waiting k s t = Fails k s t
Settles cancelled_unstarted k s t = t ≡ s

module _ (now : String) (k : ℕ) where
  completed-Ends :
      (s : NarrativeQueueState) (ms : ℤ) (item : QueueItem)
      → get k s.items ≡ some item
      → Completes k s (mark_completed now s k ms)
  unfolding mark_completed complete_item
  completed-Ends s ms item e =
      rw (e, complete_item) (get-pop-same k s.items, omega arith, omega arith)

  failed-Ends :
      (s : NarrativeQueueState) (error : String) (item : QueueItem)
      → get k s.items ≡ some item
      → Fails k s (mark_failed now s k error)
  unfolding mark_failed fail_item
  failed-Ends s error item e = rw (e, fail_item) (get-pop-same k s.items, omega arith, omega arith)

  -- A start keeps the item and the counts.
  abbrev IsKept : NarrativeQueueState → NarrativeQueueState → Type 0
  IsKept s t =
      (item : QueueItem) × (get k t.items ≡ some item)
      × (t.completed_count ≡ s.completed_count)
      × (t.failed_count ≡ s.failed_count)

  get-put-same : (s : NarrativeQueueState) (i : QueueItem) → get k (put k i s.items) ≡ some i
  get-put-same s i =
      let e : get k (put k i s.items) ≡ (if k ≡? k then some i else get k s.items) =
        get-put k k i s.items in
      ground (arith, e, ≡?_refl k)

  started-IsKept :
      (s : NarrativeQueueState) (item : QueueItem)
      → get k s.items ≡ some item
      → IsKept s (mark_started now s k)
  unfolding mark_started start_item
  started-IsKept s item e = elim (Bool-cases (is_queued item.status)) [
    | inl h ↦
        rw (e, start_item)
          (rw h (started now s item, get-put-same s (started now s item), refl, refl))
    | inr h ↦ rw (e, start_item) (rw h (item, e, refl, refl))
  ]

  after_start :
      (completed failed : ℕ) (s t u : NarrativeQueueState)
      → t.completed_count ≡ s.completed_count
      → t.failed_count ≡ s.failed_count
      → Ends k completed failed t u
      → Ends k completed failed s u
  after_start completed failed s t u c f (gone, cs, fs) =
      (gone, omega (arith, cs, c), omega (arith, fs, f))

  started-Fails :
      (s : NarrativeQueueState) (error : String) (item : QueueItem)
      → get k s.items ≡ some item
      → Fails k s (mark_failed now (mark_started now s k) k error)
  started-Fails s error item e =
      let (i, held, c, f) = started-IsKept s item e in
      after_start 0 1 s (mark_started now s k) (mark_failed now (mark_started now s k) k error) c f
        (failed-Ends (mark_started now s k) error i held)

  -- For an item that the queue holds, and each outcome of its task: the biography takes the item out
  -- of the queue and counts it once as completed, and not as failed; a reported or raised error, and
  -- a cancellation while the task generates, where the failure is reported twice, or waits, takes it
  -- out and counts it once as failed, and not as completed; a cancellation before the first step of
  -- the task leaves the whole state as it is, with the item in it.
  pub run_task-Settles :
      (s : NarrativeQueueState) (item : QueueItem) (outcome : TaskOutcome)
      → get k s.items ≡ some item
      → Settles outcome k s (run_task now k outcome s)
  unfolding run_task
  run_task-Settles s item (written ms) e =
      let (i, held, c, f) = started-IsKept s item e in
      after_start 1 0 s (mark_started now s k) (mark_completed now (mark_started now s k) k ms) c f
        (completed-Ends (mark_started now s k) ms i held)
  run_task-Settles s item (reported error) e = started-Fails s error item e
  run_task-Settles s item (raised error) e = started-Fails s error item e
  run_task-Settles s item cancelled_active e =
      let first = mark_failed now (mark_started now s k) k "cancelled" in
      let ends = started-Fails s "cancelled" item e in
      let idle : mark_failed now first k "cancelled" ≡ first =
        absent_idle k (fails now k "cancelled") first (==_refl k) ends.0 in
      rw idle ends
  run_task-Settles s item cancelled_waiting e = failed-Ends s "cancelled" item e
  run_task-Settles s item cancelled_unstarted e = refl
