-- ===== src/Queue.antt =====
-- src/chronicler/narrative/queue_state.py: `NarrativeQueueState`. Every method holds the lock for its
-- whole body, so a run is a sequence of calls. The clock is an argument of the methods that read it.
-- A listener is known by a number; what reaches it is the log `frames`, newest first, and what a
-- listener raises is dropped by the code and has no effect here. A kind is its text.
pub mod Views
pub mod Runs
pub mod Frames
pub mod Lifecycle
pub mod Terminal
pub mod Bounds
pub mod Numbers
pub mod Keys
use ck3_llm_chronicler.Base.{
  ℕ, zero, suc, ◌+◌, ◌-◌, ◌/◌, String, Bool, true, false, List, [], ◌∷◌, ◌++◌, map, Option, none,
  some, if◌then◌else◌, ◌==◌, is_empty, length, filter, drop, get_elem?, nat_order, text_order,
  pair_order, Dict, get, get_or, put, pop, sort_by, has_key,
}

pub data ℤ : Type 0 where
  pos : ℕ → ℤ
  negsuc : ℕ → ℤ

-- `max(0, i)`
abbrev pub non_negative : ℤ → ℕ
non_negative (pos n) = n
non_negative (negsuc n) = 0

pub data QueueStatus : Type 0 where
  queued : QueueStatus
  generating : QueueStatus
  completed : QueueStatus
  failed : QueueStatus

pub record QueueItem : Type 0 where
  pub item_id : ℕ
  pub character_id : ℕ
  pub kind : String
  pub status : QueueStatus
  pub enqueued_at : String
  pub started_at : Option String
  pub completed_at : Option String
  pub duration_ms : Option ℕ
  pub error : Option String
  pub character_name : Option String
  pub campaign_uuid : Option String

-- The value of `_per_char`.
pub record Aggregates : Type 0 where
  pub completed_count : ℕ
  pub failed_count : ℕ
  pub durations : List ℕ
  pub last_success_at : Option String
  pub character_name : Option String

pub record NarrativeQueueState : Type 0 where
  pub next_id : ℕ
  pub items : Dict ℕ QueueItem
  pub recent : List QueueItem
  pub recent_capacity : ℕ
  pub completed_count : ℕ
  pub failed_count : ℕ
  pub duration_total_ms : ℕ
  pub duration_samples : ℕ
  pub listeners : List ℕ
  pub per_character_sample_window : ℕ
  pub per_char : Dict (ℕ × String) Aggregates
  pub frames : List (ℕ × QueueItem)

abbrev pub is_queued : QueueStatus → Bool
is_queued queued = true
is_queued generating = false
is_queued completed = false
is_queued failed = false

abbrev pub is_generating : QueueStatus → Bool
is_generating queued = false
is_generating generating = true
is_generating completed = false
is_generating failed = false

unfoldable pub initial : ℕ → ℕ → NarrativeQueueState
initial recent_capacity window = record {
  next_id = 1;
  items = [];
  recent = [];
  recent_capacity = recent_capacity;
  completed_count = 0;
  failed_count = 0;
  duration_total_ms = 0;
  duration_samples = 0;
  listeners = [];
  per_character_sample_window = window;
  per_char = [];
  frames = [];
}

-- `append` on a `deque(maxlen=n)`: the oldest item goes when it is full.
unfoldable pub append_bounded : {A : Type 0} → ℕ → List A → A → List A
append_bounded n xs x = let ys = xs ++ (x ∷ []) in drop (length ys - n) ys

unfoldable pub add_listener : ℕ → NarrativeQueueState → NarrativeQueueState
add_listener listener s = record s { listeners = s.listeners ++ (listener ∷ []) }

-- The listeners are called in their order of registration.
unfoldable pub notify : List ℕ → QueueItem → List (ℕ × QueueItem) → List (ℕ × QueueItem)
notify [] item log = log
notify (l ∷ ls) item log = notify ls item ((l, item) ∷ log)

module _ (now : String) (s : NarrativeQueueState) where
  abbrev pub queued_item : ℕ → String → Option String → Option String → QueueItem
  queued_item character_id kind campaign_uuid character_name = record {
    item_id = s.next_id;
    character_id = character_id;
    kind = kind;
    status = queued;
    enqueued_at = now;
    started_at = none;
    completed_at = none;
    duration_ms = none;
    error = none;
    character_name = character_name;
    campaign_uuid = campaign_uuid;
  }

  -- The state after the call; the id that it returns is `s.next_id`.
  unfoldable pub enqueue : ℕ → String → Option String → Option String → NarrativeQueueState
  enqueue character_id kind campaign_uuid character_name =
      let item = queued_item character_id kind campaign_uuid character_name in
      record s {
        next_id = s.next_id + 1;
        items = put s.next_id item s.items;
        frames = notify s.listeners item s.frames;
      }

  abbrev pub started : QueueItem → QueueItem
  started item = record item { status = generating; started_at = some now }

  unfoldable pub start_item : ℕ → Option QueueItem → NarrativeQueueState
  start_item item_id none = s
  start_item item_id (some item) =
      if is_queued item.status
      then record s {
        items = put item_id (started item) s.items;
        frames = notify s.listeners (started item) s.frames;
      }
      else s

  unfoldable pub mark_started : ℕ → NarrativeQueueState
  mark_started item_id = start_item item_id (get item_id s.items)

  abbrev fresh_aggregates : Aggregates
  fresh_aggregates = record {
    completed_count = 0;
    failed_count = 0;
    durations = [];
    last_success_at = none;
    character_name = none;
  }

  -- `_per_char_locked`: the aggregates of a key, new ones if it has none.
  unfoldable pub per_char_locked : ℕ × String → Aggregates
  per_char_locked key = get_or key fresh_aggregates s.per_char

  abbrev stamp : Option String → Option String → Option String
  stamp none old = old
  stamp (some name) old = some name

  abbrev pub completed_item : ℤ → QueueItem → QueueItem
  completed_item duration item = record item {
    status = completed;
    completed_at = some now;
    duration_ms = some (non_negative duration);
  }

  abbrev pub aggregate_success : ℤ → QueueItem → Aggregates
  aggregate_success duration item =
      let stats = per_char_locked (item.character_id, item.kind) in
      record {
        completed_count = stats.completed_count + 1;
        failed_count = stats.failed_count;
        durations =
            append_bounded s.per_character_sample_window stats.durations (non_negative duration);
        last_success_at = some now;
        character_name = stamp item.character_name stats.character_name;
      }

  unfoldable pub complete_item : ℕ → ℤ → Option QueueItem → NarrativeQueueState
  complete_item item_id duration none = s
  complete_item item_id duration (some item) =
      let done = completed_item duration item in
      record s {
        items = pop item_id s.items;
        completed_count = s.completed_count + 1;
        duration_total_ms = s.duration_total_ms + non_negative duration;
        duration_samples = s.duration_samples + 1;
        recent = append_bounded s.recent_capacity s.recent done;
        per_char = put (item.character_id, item.kind) (aggregate_success duration item) s.per_char;
        frames = notify s.listeners done s.frames;
      }

  unfoldable pub mark_completed : ℕ → ℤ → NarrativeQueueState
  mark_completed item_id duration = complete_item item_id duration (get item_id s.items)

  abbrev pub failed_item : String → QueueItem → QueueItem
  failed_item message item = record item {
    status = failed;
    completed_at = some now;
    error = some message;
  }

  abbrev pub aggregate_failure : QueueItem → Aggregates
  aggregate_failure item =
      let stats = per_char_locked (item.character_id, item.kind) in
      record stats {
        failed_count = stats.failed_count + 1;
        character_name = stamp item.character_name stats.character_name;
      }

  unfoldable pub fail_item : ℕ → String → Option QueueItem → NarrativeQueueState
  fail_item item_id message none = s
  fail_item item_id message (some item) =
      let done = failed_item message item in
      record s {
        items = pop item_id s.items;
        failed_count = s.failed_count + 1;
        recent = append_bounded s.recent_capacity s.recent done;
        per_char = put (item.character_id, item.kind) (aggregate_failure item) s.per_char;
        frames = notify s.listeners done s.frames;
      }

  unfoldable pub mark_failed : ℕ → String → NarrativeQueueState
  mark_failed item_id message = fail_item item_id message (get item_id s.items)

-- Whether the item was there, and the state after.
unfoldable pub remove : ℕ → NarrativeQueueState → Bool × NarrativeQueueState
remove item_id s = (has_key item_id s.items, record s { items = pop item_id s.items })
