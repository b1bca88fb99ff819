-- ===== src/Bus/Threads.antt =====
-- src/chronicler/api/events.py: publishing from another thread than the loop's.
use ck3_llm_chronicler.Base.{
  ℕ, String, true, false, List, [], ◌∷◌, ◌++◌, map, text_order, get, is_empty, ◌≡◌, ◌∙◌, refl, ap,
  sym, arith, inl, inr, Bool-cases, Option-cases, subst,
}
use ck3_llm_chronicler.Bus.{EventBus, deliver, deliver_all, publish, publish_to, run_scheduled}
use ck3_llm_chronicler.Bus.Mailbox.{publish_to_loop}

module _ {E : Type 0} where
  -- The loop runs one callback for each that waited.
  abbrev pub drain : List (ℕ × E) → EventBus E → EventBus E
  drain [] bus = bus
  drain (x ∷ xs) bus = drain xs (run_scheduled bus)

  abbrev waiting : E → List ℕ → List (ℕ × E)
  waiting event qids = map {B = ℕ × E} (λ qid. (qid, event)) qids

  drain-waiting :
      (event : E) (qids : List ℕ) (bus : EventBus E)
      → drain (waiting event qids) (record bus { scheduled = waiting event qids })
        ≡ record bus { scheduled = []; queues = deliver_all bus.buffer_size qids event bus.queues }
  unfolding run_scheduled deliver_all
  drain-waiting event [] bus = refl
  drain-waiting event (q ∷ qs) bus =
      drain-waiting event qs (record bus { queues = deliver bus.buffer_size q event bus.queues })

  posted_waits :
      (event : E) (qids : List ℕ) (bus : EventBus E)
      → bus.attached ≡ true
      → publish_to false event qids bus
        ≡ record bus { scheduled = bus.scheduled ++ waiting event qids }
  posted_waits event qids bus h = ground arith

  posted_now :
      (event : E) (qids : List ℕ) (bus : EventBus E)
      → bus.attached ≡ false
      → publish_to false event qids bus
        ≡ record bus { queues = deliver_all bus.buffer_size qids event bus.queues }
  posted_now event qids bus h = ground arith

  abbrev Drained : EventBus E → EventBus E → Type 0
  Drained posted bus = drain posted.scheduled posted ≡ bus

  publish_to-drain :
      (event : E) (qids : List ℕ) (bus : EventBus E)
      → let idle = record bus { scheduled = [] } in
        Drained (publish_to false event qids idle) (publish_to true event qids idle)
  publish_to-drain event qids bus =
      let idle : EventBus E = record bus { scheduled = [] } in
      elim (Bool-cases bus.attached) [
        | inl e ↦
            subst (λ (p : EventBus E). Drained p (publish_to true event qids idle))
              (sym (posted_waits event qids idle e))
              (drain-waiting event qids idle ∙ sym (publish_to_loop event qids idle))
        | inr e ↦
            subst (λ (p : EventBus E). Drained p (publish_to true event qids idle))
              (sym (posted_now event qids idle e)) (sym (publish_to_loop event qids idle))
      ]

  idle-drain :
      (campaign_id : String) (event : E) (bus : EventBus E)
      → let idle = record bus { scheduled = [] } in
        Drained (publish false campaign_id event idle) (publish true campaign_id event idle)
  unfolding publish
  idle-drain campaign_id event bus = elim (Option-cases (get campaign_id bus.subscribers)) [
    | inl e ↦ rw (e, publish) refl
    | inr (ks, e) ↦ elim (Bool-cases (is_empty ks)) [
      | inl f ↦ rw (e, publish) (rw f refl)
      | inr f ↦ rw (e, publish) (rw f (publish_to-drain event ks bus))
    ]
  ]

  -- An event published from another thread, when nothing waits, reaches every queue as if it had been
  -- published on the loop, as soon as the loop has run what was scheduled.
  pub publish-drain :
      (campaign_id : String) (event : E) (bus : EventBus E)
      → bus.scheduled ≡ []
      → let posted = publish false campaign_id event bus in
        drain posted.scheduled posted ≡ publish true campaign_id event bus
  publish-drain campaign_id event bus h =
      let same : record bus { scheduled = [] } ≡ bus =
        ap (λ (l : List (ℕ × E)). record bus { scheduled = l }) (sym h) in
      subst
        (λ (b : EventBus E).
          Drained (publish false campaign_id event b) (publish true campaign_id event b))
        same (idle-drain campaign_id event bus)
