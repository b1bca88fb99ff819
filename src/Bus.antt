-- ===== src/Bus.antt =====
-- src/chronicler/api/events.py: `EventBus`. A subscriber's queue is known by a number. The lock and the
-- event loop make every method one step; what `call_soon_threadsafe` was given waits in `scheduled`
-- until the loop runs it.
pub mod Delivery
pub mod Subscribed
pub mod Mailbox
pub mod Refines
pub mod Threads
use ck3_llm_chronicler.Base.{
  ℕ, suc, ◌+◌, String, Bool, true, false, not, ◌&&◌, ◌||◌, List, [], ◌∷◌, ◌++◌, map, Option, none,
  some, if◌then◌else◌, ◌==◌, leb, ◌≡?◌, nat_order, text_order, Dict, get, get_or, put, pop, filter,
  is_empty, length, drop,
}

pub record EventBus (E : Type 0) : Type 0 where
  pub buffer_size : ℕ
  pub subscribers : Dict String (List ℕ)
  pub queues : Dict ℕ (List E)
  pub next_queue : ℕ
  pub attached : Bool
  pub scheduled : List (ℕ × E)

abbrev pub default_buffer_size : ℕ
default_buffer_size = 100

abbrev pub left_without : String → List ℕ → Dict String (List ℕ) → Dict String (List ℕ)
left_without campaign_id qids subscribers =
    if is_empty qids then pop campaign_id subscribers else put campaign_id qids subscribers

module _ {E : Type 0} where
  abbrev pub new_bus : ℕ → EventBus E
  new_bus buffer_size = record {
    buffer_size = buffer_size;
    subscribers = [];
    queues = [];
    next_queue = 0;
    attached = false;
    scheduled = [];
  }

  abbrev pub attach_loop : EventBus E → EventBus E
  attach_loop bus = record bus { attached = true }

  -- `q.put_nowait(event)` of a queue with a maximal size, of which zero is none; nothing where it raises.
  abbrev pub put_nowait : ℕ → List E → E → Option (List E)
  put_nowait size q event =
      if not (size == 0) && leb size (length q) then none else some (q ++ (event ∷ []))

  -- A full queue loses its oldest event.
  unfoldable pub enqueue_event : ℕ → E → List E → List E
  enqueue_event size event q = elim (put_nowait size q event) [
    | some longer ↦ longer
    | none ↦ elim (put_nowait size (drop 1 q) event) [ some longer ↦ longer | none ↦ drop 1 q ]
  ]

  abbrev pub deliver : ℕ → ℕ → E → Dict ℕ (List E) → Dict ℕ (List E)
  deliver size qid event queues = elim (get qid queues) [
    | none ↦ queues
    | some q ↦ put qid (enqueue_event size event q) queues
  ]

  unfoldable pub deliver_all : ℕ → List ℕ → E → Dict ℕ (List E) → Dict ℕ (List E)
  unfolding get put enqueue_event
  deliver_all size [] event queues = queues
  deliver_all size (qid ∷ qids) event queues =
      deliver_all size qids event (deliver size qid event queues)

  -- `on_loop`: the caller runs on the loop that the bus is bound to.
  abbrev pub publish_to : Bool → E → List ℕ → EventBus E → EventBus E
  publish_to on_loop event qids bus =
      if not bus.attached || on_loop
      then record bus { queues = deliver_all bus.buffer_size qids event bus.queues }
      else record bus { scheduled = bus.scheduled ++ map (λ qid. (qid, event)) qids }

  unfoldable pub publish : Bool → String → E → EventBus E → EventBus E
  unfolding get deliver_all
  publish on_loop campaign_id event bus = elim (get campaign_id bus.subscribers) [
    | none ↦ bus
    | some qids ↦ if is_empty qids then bus else publish_to on_loop event qids bus
  ]

  -- The loop runs the callback that was scheduled first.
  abbrev pub run_first : List (ℕ × E) → EventBus E → EventBus E
  run_first [] bus = bus
  run_first ((qid, event) ∷ rest) bus = record bus {
    scheduled = rest;
    queues = deliver bus.buffer_size qid event bus.queues;
  }

  unfoldable pub run_scheduled : EventBus E → EventBus E
  unfolding get put enqueue_event
  run_scheduled bus = run_first bus.scheduled bus

  unfoldable pub subscriber_count : String → EventBus E → ℕ
  unfolding get
  subscriber_count campaign_id bus = length (get_or campaign_id [] bus.subscribers)

  unfoldable pub register : String → EventBus E → ℕ × EventBus E
  unfolding get put
  register campaign_id bus =
      let q : ℕ = bus.next_queue in
      (
        q,
        record bus {
          queues = put q [] bus.queues;
          next_queue = suc q;
          subscribers =
              put campaign_id (get_or campaign_id [] bus.subscribers ++ (q ∷ [])) bus.subscribers;
        },
      )

  unfoldable pub unsubscribe : String → ℕ → EventBus E → EventBus E
  unfolding get put pop
  unsubscribe campaign_id q bus = elim (get campaign_id bus.subscribers) [
    | none ↦ bus
    | some qids ↦ record bus {
      subscribers = left_without campaign_id (filter (λ k. not (k ≡? q)) qids) bus.subscribers;
    }
  ]

  -- `aiter_queue` takes the oldest event of its queue.
  unfoldable pub take_event : ℕ → EventBus E → EventBus E
  unfolding get put
  take_event q bus = elim (get q bus.queues) [
    | none ↦ bus
    | some events ↦ record bus { queues = put q (drop 1 events) bus.queues }
  ]
