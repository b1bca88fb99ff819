-- ===== src/Pause.antt =====
-- src/chronicler/narrative/pause.py: the cached read of the pause flag and the drain. The monotonic
-- clock ticks in milliseconds here, and the settings file is what its flag says at each moment.
pub mod Freshness
pub mod Drain
use ck3_llm_chronicler.Base.{
  ℕ, ◌+◌, ◌-◌, String, Bool, true, false, List, [], ◌∷◌, map, Option, none, some, if◌then◌else◌,
  ◌==◌, ◌&&◌, any, ltb, is_empty, Dict, get, ◌≡?◌, text_order, nat_order, member, filter, length,
}
use ck3_llm_chronicler.Queue.{QueueItem, NarrativeQueueState}
use ck3_llm_chronicler.Queue.Views.{QueueSnapshot, snapshot}
use ck3_llm_chronicler.Scheduler.{schedule}

-- `_llm_paused_cache`
pub record PausedCache : Type 0 where
  pub checked_at : ℕ
  pub value : Bool

abbrev pub llm_paused_cache_ttl : ℕ
llm_paused_cache_ttl = 1000

-- `settings.get("llm_paused", False)`
abbrev pub flag_of : Option Bool → Bool
flag_of none = false
flag_of (some paused) = paused

-- The answer, and the cache after. The clock never runs backwards, so the difference is not negative.
unfoldable pub is_llm_paused : (ℕ → Option Bool) → ℕ → PausedCache → Bool × PausedCache
is_llm_paused settings now cache =
    if ltb (now - cache.checked_at) llm_paused_cache_ttl
    then (cache.value, cache)
    else (flag_of (settings now), record { checked_at = now; value = flag_of (settings now) })

abbrev pub reset_llm_paused_cache : PausedCache
reset_llm_paused_cache = record { checked_at = 0; value = false }

-- Queued and active items of a kind.
unfoldable pub queue_size : String → NarrativeQueueState → ℕ
queue_size kind s =
    let of_kind = filter (λ (i : QueueItem). i.kind ≡? kind) in
    length (of_kind (snapshot s).queued) + length (of_kind (snapshot s).active)

abbrev pub is_dead : Option String → Bool
is_dead none = false
is_dead (some death_date) = true

-- The characters' rows, each an id with its death date: those of the tracked ids that have one.
unfoldable pub dead_rows : List ℕ → List (ℕ × Option String) → List ℕ
dead_rows tracked_ids characters =
    map (λ c. c.0)
      (filter (λ (c : ℕ × Option String). member c.0 tracked_ids && is_dead c.1) characters)

-- The biographies' rows, each a character id with the text: whether the character has one.
abbrev pub has_biography : ℕ → List (ℕ × String) → Bool
has_biography character_id biographies = any biographies (λ b. b.0 == character_id)

-- What the gates answer is known by the character whose turn it is: a row has its own id.
module _ (campaign_uuid : Option String) (resolve_character_name : ℕ → Option String) (now : String)
    (is_tracked is_paused is_globally_paused : ℕ → Bool) (biographies : List (ℕ × String)) where
  unfoldable pub schedule_missing : List ℕ → NarrativeQueueState → NarrativeQueueState
  schedule_missing [] s = s
  schedule_missing (ck3_id ∷ rows) s = schedule_missing rows (
      if has_biography ck3_id biographies
      then s
      else schedule campaign_uuid resolve_character_name now is_tracked is_paused
          (is_globally_paused ck3_id) ck3_id s)

  -- `biographies_scheduled` of the report, and the state after.
  unfoldable pub drain_for_campaign :
      List ℕ → List (ℕ × Option String) → NarrativeQueueState → ℕ × NarrativeQueueState
  drain_for_campaign tracked characters s =
      let after = schedule_missing (dead_rows tracked characters) s in
      if is_empty tracked
      then (0, s)
      else (queue_size "biography" after - queue_size "biography" s, after)
