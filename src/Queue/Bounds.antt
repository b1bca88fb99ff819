-- ===== src/Queue/Bounds.antt =====
-- The bounds of the queue's memory, and its counts.
use ck3_llm_chronicler.Base.{
  ℕ, ◌+◌, ◌-◌, ◌<◌, ◌≤◌, zero, suc, String, List, [], ◌∷◌, ◌++◌, Option, none, some, ◌≡◌, refl,
  arith, inl, inr, Option-cases, nat_order, text_order, pair_order, Dict, get, put, pop, get-put,
  if◌then◌else◌, ◌≡?◌, Bool-cases, length, drop,
}
use ck3_llm_chronicler.Queue.{
  ℤ, QueueItem, Aggregates, NarrativeQueueState, initial, enqueue, mark_started, mark_completed,
  mark_failed, remove, start_item, complete_item, fail_item, append_bounded, is_queued, queued_item,
  per_char_locked, aggregate_success, aggregate_failure, started,
}
use ck3_llm_chronicler.Queue.Runs.{Call, enqueues, starts, completes, fails, removes, step, run}

length-drop : {A : Type 0} (n : ℕ) (xs : List A) → length (drop n xs) ≡ length xs - n
length-drop zero xs = omega arith
length-drop (suc n) [] = omega arith
length-drop (suc n) (x ∷ xs) = omega (arith, length-drop n xs)

-- A bounded append keeps to its bound, from any list.
length-append_bounded :
    {A : Type 0} (n : ℕ) (xs : List A) (x : A) → length (append_bounded n xs x) ≤ n
unfolding append_bounded
length-append_bounded n xs x =
    omega (arith, length-drop (length (xs ++ (x ∷ [])) - n) (xs ++ (x ∷ [])))

length-put : (k : ℕ) (v : QueueItem) (d : Dict ℕ QueueItem) → length (put k v d) ≤ length d + 1
unfolding put
length-put k v [] = omega arith
length-put k v ((j, w) ∷ d) = ground (arith, length-put k v d)

length-put_present :
    (k : ℕ) (v w : QueueItem) (d : Dict ℕ QueueItem)
    → get k d ≡ some w
    → length (put k v d) ≡ length d
unfolding put get
length-put_present k v w [] h = absurd cc
length-put_present k v w ((j, u) ∷ d) h = ground (arith, length-put_present k v w d)

length-pop : (k : ℕ) (d : Dict ℕ QueueItem) → length (pop k d) ≤ length d
unfolding pop
length-pop k [] = omega arith
length-pop k ((j, w) ∷ d) = ground (arith, length-pop k d)

length-pop_present :
    (k : ℕ) (w : QueueItem) (d : Dict ℕ QueueItem) → get k d ≡ some w → length (pop k d) < length d
unfolding pop get
length-pop_present k w [] h = absurd cc
length-pop_present k w ((j, u) ∷ d) h = ground (arith, length-pop_present k w d, length-pop k d)

-- The samples of every character fit the window.
abbrev pub WithinWindow : ℕ → Dict (ℕ × String) Aggregates → Type 0
WithinWindow n d = (key : ℕ × String) (a : Aggregates) → get key d ≡ some a → length a.durations ≤ n

-- What the queue remembers is bounded, every completion is one sample, and every item that was
-- enqueued is counted at most once, among the held, the completed or the failed.
pub record IsBounded (s : NarrativeQueueState) : Type 0 where
  pub recent_fits : length s.recent ≤ s.recent_capacity
  pub window_fits : WithinWindow s.per_character_sample_window s.per_char
  pub samples : s.duration_samples ≡ s.completed_count
  pub counted : length s.items + s.completed_count + s.failed_count < s.next_id

put-WithinWindow :
    (n : ℕ) (key : ℕ × String) (a : Aggregates) (d : Dict (ℕ × String) Aggregates)
    → length a.durations ≤ n
    → WithinWindow n d
    → WithinWindow n (put key a d)
put-WithinWindow n key a d h w k b e =
    let g : get k (put key a d) ≡ (if k ≡? key then some a else get k d) = get-put key k a d in
    elim (Bool-cases (k ≡? key)) [
      | inl same ↦ let eq : a ≡ b = ground arith in rw (← eq) h
      | inr other ↦ w k b (ground arith)
    ]

module _ (now : String) (s : NarrativeQueueState) (b : IsBounded s) where
  start_item-IsBounded :
      (item_id : ℕ) (found : Option QueueItem)
      → get item_id s.items ≡ found
      → IsBounded (start_item now s item_id found)
  unfolding start_item
  start_item-IsBounded item_id none e = b
  start_item-IsBounded item_id (some item) e = elim (Bool-cases (is_queued item.status)) [
    | inr h ↦ rw h b
    | inl h ↦ rw h (record {
      recent_fits = b.recent_fits;
      window_fits = b.window_fits;
      samples = b.samples;
      counted =
          omega (arith, b.counted, length-put_present item_id (started now s item) item s.items e);
    })
  ]

  aggregates_fit :
      (key : ℕ × String)
      → length (per_char_locked now s key).durations ≤ s.per_character_sample_window
  unfolding per_char_locked
  aggregates_fit key = elim (Option-cases (get key s.per_char)) [
    | inl e ↦ rw (e, length) (omega arith)
    | inr (a, e) ↦ rw (e, length) (b.window_fits key a e)
  ]

  complete_item-IsBounded :
      (item_id : ℕ) (duration : ℤ) (found : Option QueueItem)
      → get item_id s.items ≡ found
      → IsBounded (complete_item now s item_id duration found)
  unfolding complete_item
  complete_item-IsBounded item_id duration none e = b
  complete_item-IsBounded item_id duration (some item) e = record {
    recent_fits = length-append_bounded s.recent_capacity s.recent _;
    window_fits =
        put-WithinWindow _ (item.character_id, item.kind) (aggregate_success now s duration item)
          s.per_char (length-append_bounded s.per_character_sample_window _ _) b.window_fits;
    samples = omega (arith, b.samples);
    counted = omega (arith, b.counted, length-pop_present item_id item s.items e);
  }

  fail_item-IsBounded :
      (item_id : ℕ) (message : String) (found : Option QueueItem)
      → get item_id s.items ≡ found
      → IsBounded (fail_item now s item_id message found)
  unfolding fail_item
  fail_item-IsBounded item_id message none e = b
  fail_item-IsBounded item_id message (some item) e = record {
    recent_fits = length-append_bounded s.recent_capacity s.recent _;
    window_fits =
        put-WithinWindow _ (item.character_id, item.kind) (aggregate_failure now s item) s.per_char
          (aggregates_fit (item.character_id, item.kind)) b.window_fits;
    samples = b.samples;
    counted = omega (arith, b.counted, length-pop_present item_id item s.items e);
  }

-- Every call keeps the bounds.
pub step-IsBounded : (c : Call) (s : NarrativeQueueState) → IsBounded s → IsBounded (step c s)
unfolding enqueue mark_started mark_completed mark_failed remove
step-IsBounded (enqueues now cid kind campaign name) s b = record {
  recent_fits = b.recent_fits;
  window_fits = b.window_fits;
  samples = b.samples;
  counted =
      omega
        (arith, b.counted, length-put s.next_id (queued_item now s cid kind campaign name) s.items);
}
step-IsBounded (starts now id) s b = start_item-IsBounded now s b id _ refl
step-IsBounded (completes now id d) s b = complete_item-IsBounded now s b id d _ refl
step-IsBounded (fails now id message) s b = fail_item-IsBounded now s b id message _ refl
step-IsBounded (removes id) s b = record {
  recent_fits = b.recent_fits;
  window_fits = b.window_fits;
  samples = b.samples;
  counted = omega (arith, b.counted, length-pop id s.items);
}

run_from : (cs : List Call) (s : NarrativeQueueState) → IsBounded s → IsBounded (run cs s)
run_from [] s b = b
run_from (c ∷ cs) s b = run_from cs (step c s) (step-IsBounded c s b)

-- After any calls on a new queue, the recent items fit their capacity, the duration samples of every
-- character fit their window, the samples of the average are as many as the completed items, and the
-- held, completed and failed items together are at most the ids given out.
pub run-IsBounded :
    (capacity window : ℕ) (cs : List Call) → IsBounded (run cs (initial capacity window))
unfolding initial get
run-IsBounded capacity window cs = run_from cs (initial capacity window) (record {
  recent_fits = omega arith;
  window_fits = λ key a e. absurd cc;
  samples = refl;
  counted = omega arith;
})
