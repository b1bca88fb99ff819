-- ===== src/Queue/Views.antt =====
-- src/chronicler/narrative/queue_state.py: what the readers of the queue get, `snapshot`,
-- `character_stats` and `find_recent`.
use ck3_llm_chronicler.Base.{
  ℕ, ◌/◌, String, List, [], ◌∷◌, map, Option, none, some, if◌then◌else◌, ◌==◌, length, filter,
  get_elem?, nat_order, text_order, pair_order, sort_by,
}
use ck3_llm_chronicler.Queue.{QueueItem, Aggregates, NarrativeQueueState, is_queued, is_generating}

pub record QueueSnapshot : Type 0 where
  pub queued : List QueueItem
  pub active : List QueueItem
  pub recent : List QueueItem
  pub completed_count : ℕ
  pub failed_count : ℕ
  pub avg_duration_ms : Option ℕ

pub record CharacterStats : Type 0 where
  pub character_id : ℕ
  pub kind : String
  pub completed_count : ℕ
  pub failed_count : ℕ
  pub median_duration_ms : Option ℕ
  pub last_success_at : Option String
  pub character_name : Option String

abbrev pub item_key : QueueItem → ℕ
item_key i = i.item_id

unfoldable pub snapshot : NarrativeQueueState → QueueSnapshot
snapshot s =
    let values = map (λ e. e.1) s.items in
    record {
      queued = sort_by item_key (filter (λ i. is_queued i.status) values);
      active = sort_by item_key (filter (λ i. is_generating i.status) values);
      recent = s.recent;
      completed_count = s.completed_count;
      failed_count = s.failed_count;
      avg_duration_ms =
          if s.duration_samples == 0 then none else some (s.duration_total_ms / s.duration_samples);
    }

-- The sample at half the length of the sorted samples.
unfoldable pub median : List ℕ → Option ℕ
median durations = get_elem? (sort_by (λ d. d) durations) (length durations / 2)

abbrev pub stats_key : CharacterStats → ℕ × String
stats_key r = (r.character_id, r.kind)

abbrev stats_row : (ℕ × String) × Aggregates → CharacterStats
stats_row (key, stats) = record {
  character_id = key.0;
  kind = key.1;
  completed_count = stats.completed_count;
  failed_count = stats.failed_count;
  median_duration_ms = median stats.durations;
  last_success_at = stats.last_success_at;
  character_name = stats.character_name;
}

unfoldable pub character_stats : NarrativeQueueState → List CharacterStats
character_stats s = sort_by stats_key (map stats_row s.per_char)

-- The first item of `recent` with the id.
unfoldable pub find_in : ℕ → List QueueItem → Option QueueItem
find_in item_id [] = none
find_in item_id (i ∷ is) =
    let rest = find_in item_id is in if i.item_id == item_id then some i else rest

unfoldable pub find_recent : ℕ → NarrativeQueueState → Option QueueItem
find_recent item_id s = find_in item_id s.recent
