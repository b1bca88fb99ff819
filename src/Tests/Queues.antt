-- ===== src/Tests/Queues.antt =====
-- The theorems of the queue on some calls.
use ck3_llm_chronicler.Base.{
  ℕ, String, List, [], ◌∷◌, Option, none, some, ◌≡◌, refl, nat_order, get, put,
}
use ck3_llm_chronicler.Queue.{
  pos, QueueItem, NarrativeQueueState, initial, add_listener, enqueue, notify,
}
use ck3_llm_chronicler.Queue.Bounds.{IsBounded, run-IsBounded}
use ck3_llm_chronicler.Queue.Frames.{IsHistory, IsShown}
use ck3_llm_chronicler.Queue.Lifecycle.{run-IsHistory}
use ck3_llm_chronicler.Queue.Runs.{Call, enqueues, starts, completes, fails, step, run, watched}
use ck3_llm_chronicler.Queue.Terminal.{step-ends}
use ck3_llm_chronicler.Queue.Views.{snapshot}
use ck3_llm_chronicler.Scheduler.{run_task, cancelled_active, reorder_queued, ordered_items}
use ck3_llm_chronicler.Scheduler.Outcomes.{Settles, run_task-Settles}
use ck3_llm_chronicler.Scheduler.Reorder.{IsUnrecorded, ids_from, reorder_queued_lem}
use ck3_llm_chronicler.Scheduler.Ordering.{ids}
use ck3_llm_chronicler.Scheduler.Requested.{new_order}
use ck3_llm_chronicler.Scheduler.Waiting.{waiting, characters}
use ck3_llm_chronicler.Scheduler.Respawned.{reorder_queued-waiting}
use mathlib.Core.List.{Perm}

-- Two biographies: the first succeeds, and the second is cancelled while it waits.
abbrev calls : List Call
calls =
    enqueues "t1" 1 "biography" none (some "Matilda")
    ∷ enqueues "t2" 2 "biography" none none
    ∷ starts "t3" 1
    ∷ completes "t4" 1 (pos 4200)
    ∷ fails "t5" 2 "cancelled"
    ∷ []

run-IsHistory_example :
    IsHistory (run calls (watched 20 20 5)).frames
    × IsShown (run calls (watched 20 20 5)).items (run calls (watched 20 20 5)).frames
run-IsHistory_example = run-IsHistory 20 20 5 calls

run-IsBounded_example : IsBounded (run calls (initial 1 1))
run-IsBounded_example = run-IsBounded 1 1 calls

step-ends_example :
    step
      (fails "t6" 1 "cancelled")
      (step (completes "t4" 1 (pos 4200)) (run calls (watched 20 20 5)))
    ≡ step (completes "t4" 1 (pos 4200)) (run calls (watched 20 20 5))
step-ends_example =
    step-ends 1 (completes "t4" 1 (pos 4200)) (fails "t6" 1 "cancelled")
      (run calls (watched 20 20 5)) refl refl

-- Two biographies wait.
abbrev two_waiting : NarrativeQueueState
two_waiting =
    run
      (enqueues "t1" 1 "biography" none (some "Matilda")
        ∷ enqueues "t2" 2 "biography" none none
        ∷ [])
      (watched 20 20 5)

waiting_second : (item : QueueItem) × (get 2 two_waiting.items ≡ some item)
unfolding get put enqueue initial add_listener notify
waiting_second = (_, refl)

run_task_example :
    Settles cancelled_active 2 two_waiting (run_task "t3" 2 cancelled_active two_waiting)
run_task_example =
    run_task-Settles "t3" 2 two_waiting waiting_second.0 cancelled_active waiting_second.1

-- A test's lookup of names, which finds none.
abbrev nameless : ℕ → Option String
nameless id = none

reorder_queued_example :
    IsUnrecorded two_waiting (reorder_queued none nameless "t3" (2 ∷ []) two_waiting).1
    × ((reorder_queued none nameless "t3" (2 ∷ []) two_waiting).0
        ≡ ids_from two_waiting.next_id (ordered_items (2 ∷ []) (snapshot two_waiting).queued))
reorder_queued_example = reorder_queued_lem none nameless "t3" (2 ∷ []) two_waiting

-- One biography is being written, and three wait.
abbrev busy : List Call
busy =
    enqueues "t1" 7 "biography" none none
    ∷ enqueues "t1" 8 "biography" none none
    ∷ enqueues "t1" 9 "biography" none none
    ∷ enqueues "t1" 10 "biography" none none
    ∷ starts "t2" 1
    ∷ []

reorder_queued-waiting_example :
    let s = run busy (initial 20 20) in
    let t = (reorder_queued none nameless "t3" (4 ∷ 4 ∷ 99 ∷ []) s).1 in
    (order : List QueueItem) × Perm order (waiting s)
    × (characters (waiting t) ≡ characters order)
    × (ids order ≡ new_order (4 ∷ 4 ∷ 99 ∷ []) (ids (waiting s)))
reorder_queued-waiting_example =
    reorder_queued-waiting none nameless "t3" 20 20 busy (4 ∷ 4 ∷ 99 ∷ [])
