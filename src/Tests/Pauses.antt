-- ===== src/Tests/Pauses.antt =====
-- The pause gate over a change of the settings, and a drain behind a running queue.
use ck3_llm_chronicler.Base.{
  ℕ, String, Bool, true, false, List, [], ◌∷◌, Option, none, some, if◌then◌else◌, ltb, ◌≡◌, refl,
  arith, nat_order, text_order, get, put, member, sort_by, insert_by,
}
use ck3_llm_chronicler.Queue.{initial, enqueue, notify, mark_started, start_item}
use ck3_llm_chronicler.Queue.Runs.{Call, enqueues, starts, run}
use ck3_llm_chronicler.Queue.Views.{snapshot}
use ck3_llm_chronicler.Scheduler.{schedule, enqueue_and_spawn}
use ck3_llm_chronicler.Pause.{
  is_llm_paused, reset_llm_paused_cache, queue_size, dead_rows, schedule_missing,
  drain_for_campaign,
}
use ck3_llm_chronicler.Pause.Freshness.{asks, resets, answers, AllFresh, answers-AllFresh}
use ck3_llm_chronicler.Pause.Freshness

-- The user pauses after two and a half seconds.
abbrev settings : ℕ → Option Bool
settings now = if ltb now 2500 then none else some true

abbrev questions : List Freshness.Call
questions = asks 2000 ∷ asks 2600 ∷ resets 2700 ∷ asks 2800 ∷ asks 3900 ∷ []

old_answer_kept :
    answers settings reset_llm_paused_cache questions ≡ false ∷ false ∷ true ∷ true ∷ []
unfolding is_llm_paused
old_answer_kept = refl

-- On a clock that has run for less than a second, a reset cache answers without a look at the settings.
unread_at_start : answers (λ now. some true) reset_llm_paused_cache (asks 999 ∷ []) ≡ false ∷ []
unfolding is_llm_paused
unread_at_start = refl

answers-AllFresh_example :
    AllFresh settings 0 questions (answers settings reset_llm_paused_cache questions)
answers-AllFresh_example =
    answers-AllFresh settings 1000 questions (omega arith)
      (omega arith, (omega arith, (omega arith, (omega arith, (omega arith, tt)))))

-- One biography is being written and another waits.
abbrev calls : List Call
calls =
    enqueues "t1" 1 "biography" none (some "Matilda")
    ∷ enqueues "t2" 2 "biography" none none
    ∷ starts "t3" 1
    ∷ []

abbrev rows : List (ℕ × Option String)
rows =
    (4, some "1090.1.1")
    ∷ (5, none)
    ∷ (6, some "1091.1.1")
    ∷ (7, some "1092.1.1")
    ∷ (8, some "1093.1.1")
    ∷ []

abbrev tracked_ids : List ℕ
tracked_ids = 4 ∷ 5 ∷ 6 ∷ 7 ∷ []

abbrev written : List (ℕ × String)
written = (6, "She died young.") ∷ []

two_due :
    (drain_for_campaign none
      (λ i. none)
      "t4"
      (λ i. true)
      (λ i. false)
      (λ i. false)
      written
      tracked_ids
      rows
      (run calls (initial 20 20))).0
    ≡ 2
unfolding drain_for_campaign queue_size snapshot dead_rows schedule_missing schedule
    enqueue_and_spawn enqueue initial notify mark_started start_item get put member sort_by
    insert_by
two_due = refl
