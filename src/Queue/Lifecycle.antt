-- ===== src/Queue/Lifecycle.antt =====
-- The life of a queue item, as a listener sees it.
use ck3_llm_chronicler.Base.{
  ℕ, ◌+◌, String, true, List, [], ◌∷◌, Option, none, some, ◌≡◌, refl, ◌∙◌, arith, inl, inr,
  nat_order, get, put, pop, Bool-cases, subst,
}
use ck3_llm_chronicler.Queue.{
  ℤ, QueueStatus, QueueItem, NarrativeQueueState, initial, add_listener, enqueue, mark_started,
  mark_completed, mark_failed, remove, start_item, complete_item, fail_item, notify, is_queued,
  queued_item, started, completed_item, failed_item,
}
use ck3_llm_chronicler.Queue.Runs.{
  Call, enqueues, starts, completes, fails, removes, step, run, watched,
}
use ck3_llm_chronicler.Queue.Frames.{
  last_status, is_live, may_follow, IsHistory, IsShown, Watch, keep_put, keep_pop, pop_cases,
}

-- The invariant of a run with the one listener `l`.
record IsWatched (l : ℕ) (s : NarrativeQueueState) : Type 0 where
  only : s.listeners ≡ l ∷ []
  watch : Watch s.next_id s.items s.frames

frame :
    (l : ℕ) (s : NarrativeQueueState) (i : QueueItem)
    → s.listeners ≡ l ∷ []
    → (l, i) ∷ s.frames ≡ notify s.listeners i s.frames
unfolding notify
frame l s i e = rw e refl

module _ (l : ℕ) (now : String) (s : NarrativeQueueState) (w : IsWatched l s) where
  enqueue-IsWatched :
      (character_id : ℕ) (kind : String) (campaign name : Option String)
      → IsWatched l (enqueue now s character_id kind campaign name)
  unfolding enqueue
  enqueue-IsWatched character_id kind campaign name =
      let item = queued_item now s character_id kind campaign name in
      record {
        only = w.only;
        watch = subst (Watch (s.next_id + 1) (put s.next_id item s.items)) (frame l s item w.only) (
            keep_put s.next_id s.items s.frames l item (s.next_id + 1) (omega arith) (omega arith)
              refl (rw (w.watch.fresh s.next_id (omega arith)) refl) w.watch);
      }

  start_item-IsWatched :
      (item_id : ℕ) (found : Option QueueItem)
      → get item_id s.items ≡ found
      → IsWatched l (start_item now s item_id found)
  unfolding start_item
  start_item-IsWatched item_id none e = w
  start_item-IsWatched item_id (some item) e = elim (Bool-cases (is_queued item.status)) [
    | inr h ↦ rw h w
    | inl h ↦
        let (same, below, live) = w.watch.held item_id item e in
        let shown = w.watch.shown item_id item e in
        rw h (record {
          only = w.only;
          watch =
              subst (λ fs. Watch s.next_id (put item_id (started now s item) s.items) fs)
                (frame l s (started now s item) w.only)
                (subst
                  (λ k.
                    Watch s.next_id (put k (started now s item) s.items)
                      ((l, started now s item) ∷ s.frames))
                  same
                  (keep_put s.next_id s.items s.frames l (started now s item) s.next_id
                    (omega arith) (omega (arith, same, below)) refl (rw same (rw shown h))
                    w.watch));
        })
  ]

  -- A last frame, and the item is gone.
  end-Watch :
      (item_id : ℕ) (item done : QueueItem)
      → get item_id s.items ≡ some item
      → done.item_id ≡ item.item_id
      → ((old : QueueStatus) → is_live old ≡ true → may_follow (some old) done.status ≡ true)
      → Watch s.next_id (pop item_id s.items) (notify s.listeners done s.frames)
  end-Watch item_id item done e same_id ends =
      let (same, below, live) = w.watch.held item_id item e in
      let shown = w.watch.shown item_id item e in
      let id_of : done.item_id ≡ item_id = same_id ∙ same in
      subst (λ fs. Watch s.next_id (pop item_id s.items) fs) (frame l s done w.only)
        (subst (λ k. Watch s.next_id (pop k s.items) ((l, done) ∷ s.frames)) id_of
          (keep_pop s.next_id s.items s.frames l done (omega (arith, id_of, below))
            (rw id_of (rw shown (ends item.status live))) w.watch))

  complete_item-IsWatched :
      (item_id : ℕ) (duration : ℤ) (found : Option QueueItem)
      → get item_id s.items ≡ found
      → IsWatched l (complete_item now s item_id duration found)
  unfolding complete_item
  complete_item-IsWatched item_id duration none e = w
  complete_item-IsWatched item_id duration (some item) e = record {
    only = w.only;
    watch = end-Watch item_id item (completed_item now s duration item) e refl (λ old h. h);
  }

  fail_item-IsWatched :
      (item_id : ℕ) (message : String) (found : Option QueueItem)
      → get item_id s.items ≡ found
      → IsWatched l (fail_item now s item_id message found)
  unfolding fail_item
  fail_item-IsWatched item_id message none e = w
  fail_item-IsWatched item_id message (some item) e = record {
    only = w.only;
    watch = end-Watch item_id item (failed_item now s message item) e refl (λ old h. h);
  }

remove-IsWatched :
    (l : ℕ) (s : NarrativeQueueState) (item_id : ℕ)
    → IsWatched l s
    → IsWatched l (remove item_id s).1
unfolding remove
remove-IsWatched l s item_id w = record {
  only = w.only;
  watch = record {
    history = w.watch.history;
    shown = λ k i e. w.watch.shown k i (pop_cases item_id k i s.items e).1;
    held = λ k i e. w.watch.held k i (pop_cases item_id k i s.items e).1;
    fresh = w.watch.fresh;
  };
}

step-IsWatched :
    (l : ℕ) (c : Call) (s : NarrativeQueueState) → IsWatched l s → IsWatched l (step c s)
unfolding mark_started mark_completed mark_failed
step-IsWatched l (enqueues now cid kind campaign name) s w =
    enqueue-IsWatched l now s w cid kind campaign name
step-IsWatched l (starts now id) s w = start_item-IsWatched l now s w id _ refl
step-IsWatched l (completes now id d) s w = complete_item-IsWatched l now s w id d _ refl
step-IsWatched l (fails now id message) s w = fail_item-IsWatched l now s w id message _ refl
step-IsWatched l (removes id) s w = remove-IsWatched l s id w

run-IsWatched :
    (l : ℕ) (cs : List Call) (s : NarrativeQueueState) → IsWatched l s → IsWatched l (run cs s)
run-IsWatched l [] s w = w
run-IsWatched l (c ∷ cs) s w = run-IsWatched l cs (step c s) (step-IsWatched l c s w)

watched-IsWatched : (capacity window l : ℕ) → IsWatched l (watched capacity window l)
unfolding add_listener initial last_status get
watched-IsWatched capacity window l = record {
  only = refl;
  watch = record {
    history = tt;
    shown = λ k i e. cc;
    held = λ k i e. absurd cc;
    fresh = λ k h. refl;
  };
}

-- After any calls on a new queue with one listener, with any capacities, every frame that reached the
-- listener shows a transition that may follow the earlier frames about the same item (queued once,
-- then started at most once, then completed or failed at most once), and each item that the queue
-- still holds has the status that its last frame showed.
pub run-IsHistory :
    (capacity window l : ℕ) (cs : List Call)
    → IsHistory (run cs (watched capacity window l)).frames
      × IsShown
          (run cs (watched capacity window l)).items
          (run cs (watched capacity window l)).frames
run-IsHistory capacity window l cs =
    let w = run-IsWatched l cs (watched capacity window l) (watched-IsWatched capacity window l) in
    (w.watch.history, w.watch.shown)
