-- ===== src/Bus/Refines.antt =====
-- src/chronicler/api/events.py: runs of calls, against the mailbox of one subscriber.
use ck3_llm_chronicler.Base.{
  ℕ, String, Bool, true, List, [], ◌∷◌, nat_order, text_order, get, is_empty, ◌≡◌, refl, arith, inl,
  inr, Bool-cases, Option-cases, All, subst,
}
use ck3_llm_chronicler.Bus.{EventBus, publish, publish_to, register, unsubscribe, take_event}
use ck3_llm_chronicler.Bus.Mailbox.{
  Call, registers, unsubscribes, publishes, takes, step, run, follow, follow_all, Stays, Holds,
  step-Holds,
}

module _ {E : Type 0} where
  publish_to-buffer_size :
      (b : Bool) (event : E) (qids : List ℕ) (bus : EventBus E)
      → (publish_to b event qids bus).buffer_size ≡ bus.buffer_size
  publish_to-buffer_size b event qids bus = ground arith

  step-buffer_size : (c : Call E) (bus : EventBus E) → (step c bus).buffer_size ≡ bus.buffer_size
  unfolding register unsubscribe publish take_event
  step-buffer_size (registers c) bus = refl
  step-buffer_size (unsubscribes c k) bus = elim (Option-cases (get c bus.subscribers)) [
    | inl e ↦ rw (e, unsubscribe) refl
    | inr (ks, e) ↦ rw (e, unsubscribe) refl
  ]
  step-buffer_size (publishes c event) bus = elim (Option-cases (get c bus.subscribers)) [
    | inl e ↦ rw (e, publish) refl
    | inr (ks, e) ↦ elim (Bool-cases (is_empty ks)) [
      | inl f ↦ rw (e, publish) (rw f refl)
      | inr f ↦ rw (e, publish) (rw f (publish_to-buffer_size true event ks bus))
    ]
  ]
  step-buffer_size (takes k) bus = elim (Option-cases (get k bus.queues)) [
    | inl e ↦ rw (e, take_event) refl
    | inr (es, e) ↦ rw (e, take_event) refl
  ]

  -- A subscriber that stays gets, over any calls on the thread of the loop: registrations, departures
  -- and reads of others, and events published to any campaign. Its queue holds exactly what the
  -- mailbox of its campaign holds: the last events published to that campaign, as many as the buffer
  -- takes, oldest first, less those it has taken; and it stays subscribed to that campaign only.
  pub run-Holds :
      (q : ℕ) (campaign : String) (calls : List (Call E)) (events : List E) (bus : EventBus E)
      → All (Stays q campaign) calls
      → Holds q campaign events bus
      → Holds q campaign (follow_all bus.buffer_size q campaign calls events) (run calls bus)
  run-Holds q campaign [] events bus d h = h
  run-Holds q campaign (c ∷ cs) events bus (d, ds) h =
      let next =
        run-Holds q campaign cs (follow bus.buffer_size q campaign c events) (step c bus) ds
          (step-Holds q campaign c events bus d h) in
      subst
        (λ (n : ℕ).
          Holds q campaign (follow_all n q campaign cs (follow bus.buffer_size q campaign c events))
            (run cs (step c bus)))
        (step-buffer_size c bus) next
