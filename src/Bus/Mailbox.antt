-- ===== src/Bus/Mailbox.antt =====
-- src/chronicler/api/events.py: what one subscriber gets, whatever the others do.
use ck3_llm_chronicler.Base.{
  ℕ, ◌≤◌, ◌<◌, String, true, false, ◌&&◌, List, [], ◌∷◌, ◌++◌, none, some, if◌then◌else◌, ◌==◌,
  ◌≡?◌, nat_order, text_order, Dict, get, Order, get-put, is_empty, length, drop, ◌≡◌, ◌∙◌, sym, ap,
  arith, inl, inr, Bool-cases, Option-cases, eq_of_≡?, ≡?_refl, subst,
}
use ck3_llm_chronicler.Bus.{
  EventBus, deliver_all, publish, publish_to, register, unsubscribe, take_event,
}
use ck3_llm_chronicler.Bus.Delivery.{
  times, keep_last, enqueue_event-keep_last, length-keep_last, length-drop_one, deliver_all-other,
  deliver_all-own,
}
use ck3_llm_chronicler.Bus.Subscribed.{
  IsSubscribed, register-IsSubscribed, unsubscribe-IsSubscribed,
}

-- A call on the thread of the loop.
pub data Call (E : Type 0) : Type 0 where
  registers : String → Call E
  unsubscribes : String → ℕ → Call E
  publishes : String → E → Call E
  takes : ℕ → Call E

module _ {K V : Type 0} ⦃o : Order K⦄ where
  missing :
      (k j : K) (v : V) (d : Dict K V) → (k ≡? j) ≡ true → get k d ≡ none → get j d ≡ some v → ⊥
  missing k j v d s e f =
      let g : get j d ≡ none = subst (λ (x : K). get x d ≡ none) (eq_of_≡? k j s) e in
      let bad : none ≡ some v = sym g ∙ f in cc

  found_same :
      (k j : K) (v w : V) (d : Dict K V)
      → (k ≡? j) ≡ true
      → get k d ≡ some v
      → get j d ≡ some w
      → v ≡ w
  found_same k j v w d s e f =
      let g : get j d ≡ some v = subst (λ (x : K). get x d ≡ some v) (eq_of_≡? k j s) e in
      let both : some v ≡ some w = sym g ∙ f in cc

occupied : (q : ℕ) (ks : List ℕ) → times q ks ≡ 1 → is_empty ks ≡ true → ⊥
occupied q [] h e = absurd (omega (arith, h))
occupied q (k ∷ ks) h e = cc

module _ {E : Type 0} where
  abbrev pub step : Call E → EventBus E → EventBus E
  step (registers c) bus = (register c bus).1
  step (unsubscribes c q) bus = unsubscribe c q bus
  step (publishes c event) bus = publish true c event bus
  step (takes q) bus = take_event q bus

  abbrev pub run : List (Call E) → EventBus E → EventBus E
  run [] bus = bus
  run (c ∷ cs) bus = run cs (step c bus)

  -- The mailbox of one subscriber of one campaign: the last events published to that campaign, less
  -- those taken.
  abbrev pub follow : ℕ → ℕ → String → Call E → List E → List E
  follow n q campaign (registers c) events = events
  follow n q campaign (unsubscribes c k) events = events
  follow n q campaign (publishes c event) events =
      if c ≡? campaign then keep_last n (events ++ (event ∷ [])) else events
  follow n q campaign (takes k) events = if k ≡? q then drop 1 events else events

  abbrev pub follow_all : ℕ → ℕ → String → List (Call E) → List E → List E
  follow_all n q campaign [] events = events
  follow_all n q campaign (c ∷ cs) events =
      follow_all n q campaign cs (follow n q campaign c events)

  -- The subscriber does not leave by this call.
  abbrev pub Stays : ℕ → String → Call E → Type 0
  Stays q campaign (registers c) = Unit
  Stays q campaign (unsubscribes c k) = ((c ≡? campaign) && (k ≡? q)) ≡ false
  Stays q campaign (publishes c event) = Unit
  Stays q campaign (takes k) = Unit

  -- The queue `q` is subscribed to the campaign and holds these events.
  pub record Holds (q : ℕ) (campaign : String) (events : List E) (bus : EventBus E) : Type 0 where
    pub queue : get q bus.queues ≡ some events
    pub subscribed : IsSubscribed q campaign bus.subscribers
    pub old : q < bus.next_queue
    pub fits : (bus.buffer_size == 0) ≡ false → length events ≤ bus.buffer_size

  register-Holds :
      (q : ℕ) (campaign c : String) (events : List E) (bus : EventBus E)
      → Holds q campaign events bus
      → Holds q campaign events (register c bus).1
  unfolding register
  register-Holds q campaign c events bus h =
      let other : (q ≡? bus.next_queue) ≡ false = ground (arith, h.old) in
      record {
        queue = get-put bus.next_queue q [] bus.queues ∙ rw other h.queue;
        subscribed =
            register-IsSubscribed q bus.next_queue campaign c bus.subscribers other h.subscribed;
        old = omega (arith, h.old);
        fits = h.fits;
      }

  unsubscribe-Holds :
      (q k : ℕ) (campaign c : String) (events : List E) (bus : EventBus E)
      → ((c ≡? campaign) && (k ≡? q)) ≡ false
      → Holds q campaign events bus
      → Holds q campaign events (unsubscribe c k bus)
  unfolding unsubscribe
  unsubscribe-Holds q k campaign c events bus d h = elim (Option-cases (get c bus.subscribers)) [
    | inl e ↦ rw (e, unsubscribe) h
    | inr (ks, e) ↦
        rw (e, unsubscribe)
          (record {
            queue = h.queue;
            subscribed =
                unsubscribe-IsSubscribed q k campaign c ks bus.subscribers d e h.subscribed;
            old = h.old;
            fits = h.fits;
          })
  ]

  take_event-Holds :
      (q k : ℕ) (campaign : String) (events : List E) (bus : EventBus E)
      → Holds q campaign events bus
      → Holds q campaign (if k ≡? q then drop 1 events else events) (take_event k bus)
  unfolding take_event
  take_event-Holds q k campaign events bus h = elim (Option-cases (get k bus.queues)) [
    | inl e ↦ elim (Bool-cases (k ≡? q)) [
      | inl s ↦ absurd (missing k q events bus.queues s e h.queue)
      | inr s ↦ rw (e, take_event) (rw s h)
    ]
    | inr (es, e) ↦ elim (Bool-cases (k ≡? q)) [
      | inl s ↦
          let same : q ≡ k = sym (eq_of_≡? k q s) in
          let is : es ≡ events = found_same k q es events bus.queues s e h.queue in
          rw (e, take_event)
            (rw s (record {
              queue =
                  get-put k q (drop 1 es) bus.queues
                  ∙ (rw same (rw (≡?_refl k) (ap (λ (l : List E). some (drop 1 l)) is)));
              subscribed = h.subscribed;
              old = h.old;
              fits = λ z. omega (arith, h.fits z, length-drop_one events);
            }))
      | inr s ↦
          let other : (q ≡? k) ≡ false = ground (arith, s) in
          rw (e, take_event)
            (rw s (record {
              queue = get-put k q (drop 1 es) bus.queues ∙ rw other h.queue;
              subscribed = h.subscribed;
              old = h.old;
              fits = h.fits;
            }))
    ]
  ]

  pub publish_to_loop :
      (event : E) (qids : List ℕ) (bus : EventBus E)
      → publish_to true event qids bus
        ≡ record bus { queues = deliver_all bus.buffer_size qids event bus.queues }
  publish_to_loop event qids bus = elim (Bool-cases bus.attached) [
    | inl e ↦ ground arith
    | inr e ↦ ground arith
  ]

  -- The event reaches the queues of its campaign.
  abbrev reached : ℕ → String → String → E → List E → EventBus E → List E
  reached q campaign c event events bus =
      if c ≡? campaign then keep_last bus.buffer_size (events ++ (event ∷ [])) else events

  delivered-Holds :
      (q : ℕ) (campaign c : String) (event : E) (events : List E) (ks : List ℕ) (bus : EventBus E)
      → get c bus.subscribers ≡ some ks
      → Holds q campaign events bus
      → Holds q campaign
          (reached q campaign c event events bus)
          (record bus { queues = deliver_all bus.buffer_size ks event bus.queues })
  delivered-Holds q campaign c event events ks bus e h = elim (Bool-cases (c ≡? campaign)) [
    | inl s ↦
        let is : ks ≡ h.subscribed.qids =
          found_same c campaign ks h.subscribed.qids bus.subscribers s e h.subscribed.found in
        let once : times q ks ≡ 1 = ap (times q) is ∙ h.subscribed.once in
        rw s (record {
          queue =
              deliver_all-own bus.buffer_size q event ks events bus.queues once h.queue
              ∙ ap some (enqueue_event-keep_last bus.buffer_size event events h.fits);
          subscribed = h.subscribed;
          old = h.old;
          fits = λ z. length-keep_last bus.buffer_size (events ++ (event ∷ [])) z;
        })
    | inr s ↦ rw s (record {
      queue =
          deliver_all-other bus.buffer_size q event ks bus.queues
            (h.subscribed.nowhere_else c ks s e)
          ∙ h.queue;
      subscribed = h.subscribed;
      old = h.old;
      fits = h.fits;
    })
  ]

  unreached :
      (q : ℕ) (campaign c : String) (event : E) (events : List E) (bus : EventBus E)
      → (c ≡? campaign) ≡ false
      → Holds q campaign events bus
      → Holds q campaign (reached q campaign c event events bus) bus
  unreached q campaign c event events bus s h = rw s h

  publish-Holds :
      (q : ℕ) (campaign c : String) (event : E) (events : List E) (bus : EventBus E)
      → Holds q campaign events bus
      → Holds q campaign (reached q campaign c event events bus) (publish true c event bus)
  unfolding publish
  publish-Holds q campaign c event events bus h = elim (Option-cases (get c bus.subscribers)) [
    | inl e ↦ elim (Bool-cases (c ≡? campaign)) [
      | inl s ↦ absurd (missing c campaign h.subscribed.qids bus.subscribers s e h.subscribed.found)
      | inr s ↦ rw (e, publish) (unreached q campaign c event events bus s h)
    ]
    | inr (ks, e) ↦ elim (Bool-cases (is_empty ks)) [
      | inl f ↦ elim (Bool-cases (c ≡? campaign)) [
        | inl s ↦ absurd (
            occupied q ks
              (ap (times q) (
                  found_same c campaign ks h.subscribed.qids bus.subscribers s e h.subscribed.found)
                ∙ h.subscribed.once)
              f)
        | inr s ↦ rw (e, publish) (rw f (unreached q campaign c event events bus s h))
      ]
      | inr f ↦
          rw (e, publish)
            (rw f (
              rw (publish_to_loop event ks bus)
                (delivered-Holds q campaign c event events ks bus e h)))
    ]
  ]

  pub step-Holds :
      (q : ℕ) (campaign : String) (call : Call E) (events : List E) (bus : EventBus E)
      → Stays q campaign call
      → Holds q campaign events bus
      → Holds q campaign (follow bus.buffer_size q campaign call events) (step call bus)
  step-Holds q campaign (registers c) events bus d h = register-Holds q campaign c events bus h
  step-Holds q campaign (unsubscribes c k) events bus d h =
      unsubscribe-Holds q k campaign c events bus d h
  step-Holds q campaign (publishes c event) events bus d h =
      publish-Holds q campaign c event events bus h
  step-Holds q campaign (takes k) events bus d h = take_event-Holds q k campaign events bus h
