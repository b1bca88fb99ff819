-- ===== src/Pause/Drain.antt =====
-- src/chronicler/narrative/pause.py: what a drain schedules and reports.
use ck3_llm_chronicler.Base.{
  ℕ, ◌+◌, String, Bool, not, ◌&&◌, List, ◌++◌, map, Option, filter, length, nat_order, text_order,
  ◌≡?◌, ◌≡◌,
}
use ck3_llm_chronicler.Queue.{QueueItem, QueueStatus, NarrativeQueueState}
use ck3_llm_chronicler.Queue.Numbers.{IsNumbered}
use ck3_llm_chronicler.Queue.Keys.{values}
use ck3_llm_chronicler.Pause.{queue_size, has_biography}

-- Of a status and a kind.
abbrev count : (QueueStatus → Bool) → String → List QueueItem → ℕ
count status kind items =
    length (
      filter (λ (i : QueueItem). i.kind ≡? kind)
        (filter (λ (i : QueueItem). status i.status) items))

-- The characters of the items that the queue holds, in the order in which they came.
abbrev pub characters_of : NarrativeQueueState → List ℕ
characters_of s = map (λ (i : QueueItem). i.character_id) (values s.items)

-- The state `t` holds what `s` holds, and then an item of a biography for each of the characters.
record Adds (due : List ℕ) (s t : NarrativeQueueState) : Type 0 where
  numbered : IsNumbered t
  size : queue_size "biography" t ≡ queue_size "biography" s + length due
  characters : characters_of t ≡ characters_of s ++ due

module _ (campaign_uuid : Option String) (resolve_character_name : ℕ → Option String) (now : String)
    (is_tracked is_paused is_globally_paused : ℕ → Bool) (biographies : List (ℕ × String)) where
  -- Without a biography, and let through by every gate of the scheduler.
  abbrev pub is_due : ℕ → Bool
  is_due ck3_id =
      not (has_biography ck3_id biographies)
      && is_tracked ck3_id
      && not (is_paused ck3_id)
      && not (is_globally_paused ck3_id)
