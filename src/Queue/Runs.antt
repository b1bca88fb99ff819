-- ===== src/Queue/Runs.antt =====
-- The calls of the queue's methods, and runs of them.
use ck3_llm_chronicler.Base.{ℕ, String, List, [], ◌∷◌, Option}
use ck3_llm_chronicler.Queue.{
  ℤ, NarrativeQueueState, initial, add_listener, enqueue, mark_started, mark_completed, mark_failed,
  remove,
}

-- A call that writes, with what the clock says when it runs.
pub data Call : Type 0 where
  enqueues : String → ℕ → String → Option String → Option String → Call
  starts : String → ℕ → Call
  completes : String → ℕ → ℤ → Call
  fails : String → ℕ → String → Call
  removes : ℕ → Call

abbrev pub step : Call → NarrativeQueueState → NarrativeQueueState
step (enqueues now character_id kind campaign name) s =
    enqueue now s character_id kind campaign name
step (starts now item_id) s = mark_started now s item_id
step (completes now item_id duration) s = mark_completed now s item_id duration
step (fails now item_id message) s = mark_failed now s item_id message
step (removes item_id) s = (remove item_id s).1

-- The calls in their order.
abbrev pub run : List Call → NarrativeQueueState → NarrativeQueueState
run [] s = s
run (c ∷ cs) s = run cs (step c s)

-- A state in which one listener has been registered.
abbrev pub watched : ℕ → ℕ → ℕ → NarrativeQueueState
watched capacity window listener = add_listener listener (initial capacity window)
