-- ===== src/Scheduler.antt =====
-- src/chronicler/narrative/scheduler.py: `NarrativeScheduler`, as far as it works on the queue state:
-- the gates of `schedule`, `regenerate`, what `_run` reports of a task, and `reorder_queued`. The event
-- loop is not modelled: a task is the calls that it makes on the queue, and `generate_biography` is
-- known by its outcome. The tracked list, the two pause flags and the lookup of names are parameters.
pub mod Reorder
pub mod Ordering
pub mod Requested
pub mod Waiting
pub mod Respawned
pub mod Outcomes
use ck3_llm_chronicler.Base.{
  ℕ, String, Bool, true, false, not, ◌&&◌, ◌||◌, List, [], ◌∷◌, ◌++◌, map, Option, none, some,
  if◌then◌else◌, is_empty, nat_order, Dict, get, member, filter,
}
use ck3_llm_chronicler.Queue.{
  ℤ, QueueItem, NarrativeQueueState, enqueue, mark_started, mark_completed, mark_failed, remove,
}
use ck3_llm_chronicler.Queue.Views.{QueueSnapshot, snapshot}

-- How a task ends: the biography is there after some milliseconds, the generator reports an error, it
-- raises one, or the task is cancelled while it generates, while it waits for its turn, or before its
-- first step, when the body of `_run` is never entered.
pub data TaskOutcome : Type 0 where
  written : ℤ → TaskOutcome
  reported : String → TaskOutcome
  raised : String → TaskOutcome
  cancelled_active : TaskOutcome
  cancelled_waiting : TaskOutcome
  cancelled_unstarted : TaskOutcome

-- `_run` for a task with a queue item. A cancelled active task reports twice, on its way out.
unfoldable pub run_task : String → ℕ → TaskOutcome → NarrativeQueueState → NarrativeQueueState
run_task now item_id (written ms) s = mark_completed now (mark_started now s item_id) item_id ms
run_task now item_id (reported error) s = mark_failed now (mark_started now s item_id) item_id error
run_task now item_id (raised error) s = mark_failed now (mark_started now s item_id) item_id error
run_task now item_id cancelled_active s =
    mark_failed now (mark_failed now (mark_started now s item_id) item_id "cancelled") item_id
      "cancelled"
run_task now item_id cancelled_waiting s = mark_failed now s item_id "cancelled"
run_task now item_id cancelled_unstarted s = s

-- The id of the item that a call added, and the state after.
abbrev pub Spawned : Type 0
Spawned = Option ℕ × NarrativeQueueState

-- The requested items that are queued, in the order of the request, each once.
unfoldable pub requested_items : Dict ℕ QueueItem → List ℕ → List ℕ → List QueueItem
requested_items queued_by_id seen [] = []
requested_items queued_by_id seen (rid ∷ rids) =
    let found = if member rid seen then none else get rid queued_by_id in
    let later =
      requested_items queued_by_id (elim found [ none ↦ seen | some item ↦ rid ∷ seen ]) rids in
    elim found [ none ↦ later | some item ↦ item ∷ later ]

-- The requested items, then the other queued items in their order; none if no request is queued.
unfoldable pub ordered_items : List ℕ → List QueueItem → List QueueItem
ordered_items requested_ids queued =
    let first = requested_items (map (λ i. (i.item_id, i)) queued) [] requested_ids in
    let seen = map (λ i. i.item_id) first in
    if is_empty first
    then []
    else first ++ filter (λ (i : QueueItem). not (member i.item_id seen)) queued

unfoldable pub remove_all : List QueueItem → NarrativeQueueState → NarrativeQueueState
remove_all [] s = s
remove_all (item ∷ items) s = remove_all items (remove item.item_id s).1

-- The tasks of the items are cancelled while they wait.
unfoldable pub cancel_all : String → List QueueItem → NarrativeQueueState → NarrativeQueueState
cancel_all now [] s = s
cancel_all now (item ∷ items) s =
    cancel_all now items (run_task now item.item_id cancelled_waiting s)

module _ (campaign_uuid : Option String) (resolve_character_name : ℕ → Option String)
    (now : String) where
  unfoldable pub enqueue_and_spawn : ℕ → NarrativeQueueState → Spawned
  enqueue_and_spawn character_id s = (
    some s.next_id,
    enqueue now s character_id "biography" campaign_uuid (resolve_character_name character_id),
  )

  -- The automatic path: tracked, not paused, and not paused as a whole.
  unfoldable pub schedule :
      (is_tracked is_paused : ℕ → Bool) → Bool → ℕ → NarrativeQueueState → NarrativeQueueState
  schedule is_tracked is_paused is_globally_paused character_id s =
      if not (is_tracked character_id)
      then s
      else if is_paused character_id
      then s
      else if is_globally_paused
      then s
      else (enqueue_and_spawn character_id s).1

  -- The user's path, without the gates.
  unfoldable pub regenerate : ℕ → NarrativeQueueState → Spawned
  regenerate character_id s = enqueue_and_spawn character_id s

  unfoldable pub respawn_all : List QueueItem → NarrativeQueueState → List ℕ × NarrativeQueueState
  respawn_all [] s = ([], s)
  respawn_all (item ∷ items) s =
      let rest = respawn_all items (regenerate item.character_id s).1 in
      (s.next_id ∷ rest.0, rest.1)

  -- The new ids in their order, and the state after.
  unfoldable pub reorder_queued : List ℕ → NarrativeQueueState → List ℕ × NarrativeQueueState
  reorder_queued requested_ids s =
      let queued = (snapshot s).queued in
      let ordered = ordered_items requested_ids queued in
      if is_empty ordered
      then ([], s)
      else respawn_all ordered (cancel_all now queued (remove_all queued s))
