-- ===== src/Tests/Buses.antt =====
-- A bus with room for two events, and a buffer of two log lines.
use ck3_llm_chronicler.Base.{
  flat_map, sorted, insert, ℕ, String, true, false, List, [], ◌∷◌, some, nat_order, text_order, get,
  put, ◌≡◌, ◌≡?◌, refl, arith,
}
use ck3_llm_chronicler.LogBuffer.{
  LogEnvelope, new_buffer, emit, push_bounded, recent, known_loggers,
}
use ck3_llm_chronicler.LogBuffer.Polling.{poll_all, number, poll_all_lem}
use ck3_llm_chronicler.Bus.{EventBus, new_bus, attach_loop, register, publish, subscriber_count}
use ck3_llm_chronicler.Bus.Mailbox.{
  Call, registers, unsubscribes, publishes, takes, run, follow_all, Holds,
}
use ck3_llm_chronicler.Bus.Refines.{run-Holds}
use ck3_llm_chronicler.Bus.Threads.{drain, publish-drain}

abbrev one_subscriber : EventBus String
one_subscriber = record (new_bus 2) {
  subscribers = ("a", 0 ∷ []) ∷ [];
  queues = (0, []) ∷ [];
  next_queue = 1;
}

is_registered : (register "a" (new_bus 2)).1 ≡ one_subscriber
unfolding register put get
is_registered = refl

counted_once : subscriber_count "a" one_subscriber ≡ 1
unfolding subscriber_count get
counted_once = refl

abbrev calls : List (Call String)
calls =
    registers "a"
    ∷ publishes "a" "x"
    ∷ publishes "b" "other"
    ∷ publishes "a" "y"
    ∷ unsubscribes "a" 1
    ∷ publishes "a" "z"
    ∷ takes 0
    ∷ []

mailbox_of_calls : follow_all 2 0 "a" calls [] ≡ "z" ∷ []
mailbox_of_calls = refl

only_a : (k : String) (ks : List ℕ) → (k ≡? "a") ≡ false → get k (("a", 0 ∷ []) ∷ []) ≡ some ks → ⊥
unfolding get
only_a k ks n e = ground arith

starts-Holds : Holds 0 "a" [] one_subscriber
unfolding get
starts-Holds = record {
  queue = refl;
  subscribed = record {
    qids = 0 ∷ [];
    found = refl;
    once = refl;
    nowhere_else = λ k ks n e. absurd (only_a k ks n e);
  };
  old = omega arith;
  fits = λ z. omega arith;
}

run-Holds_example : Holds 0 "a" (follow_all 2 0 "a" calls []) (run calls one_subscriber)
run-Holds_example =
    run-Holds 0 "a" calls [] one_subscriber (tt, (tt, (tt, (tt, (refl, (tt, (tt, tt)))))))
      starts-Holds

publish-drain_example :
    let posted = publish false "a" "x" (attach_loop one_subscriber) in
    drain posted.scheduled posted ≡ publish true "a" "x" (attach_loop one_subscriber)
publish-drain_example = publish-drain "a" "x" (attach_loop one_subscriber) refl

abbrev line : String → LogEnvelope
line message = record {
  seq = 0;
  ts = "t";
  level = "INFO";
  logger = "chronicler.save";
  message = message;
}

abbrev batches : List (List LogEnvelope)
batches = (line "a" ∷ line "b" ∷ []) ∷ [] ∷ (line "c" ∷ []) ∷ (line "d" ∷ line "e" ∷ []) ∷ []

logger_names : known_loggers (emit (line "a") (new_buffer 2)) ≡ "chronicler.save" ∷ []
unfolding known_loggers emit push_bounded sorted insert
logger_names = refl

recent_lines : recent 1 (some "WARNING") (emit (line "a") (new_buffer 2)) ≡ some []
unfolding recent emit push_bounded
recent_lines = refl

poll_all_lem_example : poll_all batches 0 (new_buffer 2) ≡ number 1 (flat_map (λ b. b) batches)
poll_all_lem_example = poll_all_lem 2 batches (omega arith)
