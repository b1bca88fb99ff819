-- ===== src/Scheduler/Reorder.antt =====
-- A reorder is no failure: it takes the queued items out, and puts them back as new ones.
use ck3_llm_chronicler.Base.{
  ℕ, ◌+◌, String, true, List, [], ◌∷◌, Option, none, ◌≡◌, refl, ◌∙◌, arith, inl, inr, nat_order,
  Dict, get, pop, get-pop, ==_refl, ◌≡?◌, Bool-cases, if◌then◌else◌, is_empty, ap, All,
}
use ck3_llm_chronicler.Queue.{QueueItem, NarrativeQueueState, enqueue, mark_failed, remove}
use ck3_llm_chronicler.Queue.Views.{snapshot}
use ck3_llm_chronicler.Queue.Runs.{fails}
use ck3_llm_chronicler.Queue.Terminal.{absent_idle, get-pop-same}
use ck3_llm_chronicler.Scheduler.{
  run_task, enqueue_and_spawn, regenerate, ordered_items, remove_all, cancel_all, respawn_all,
  reorder_queued,
}

-- Nothing is recorded as ended.
pub record IsUnrecorded (s t : NarrativeQueueState) : Type 0 where
  pub recent : t.recent ≡ s.recent
  pub completed : t.completed_count ≡ s.completed_count
  pub failed : t.failed_count ≡ s.failed_count
  pub per_char : t.per_char ≡ s.per_char
  pub durations : t.duration_total_ms ≡ s.duration_total_ms

idle-IsUnrecorded : (s : NarrativeQueueState) → IsUnrecorded s s
idle-IsUnrecorded s = record {
  recent = refl;
  completed = refl;
  failed = refl;
  per_char = refl;
  durations = refl;
}

IsUnrecorded-trans :
    (s t u : NarrativeQueueState) → IsUnrecorded s t → IsUnrecorded t u → IsUnrecorded s u
IsUnrecorded-trans s t u h k = record {
  recent = k.recent ∙ h.recent;
  completed = k.completed ∙ h.completed;
  failed = k.failed ∙ h.failed;
  per_char = k.per_char ∙ h.per_char;
  durations = k.durations ∙ h.durations;
}

remove_all-IsUnrecorded :
    (items : List QueueItem) (s : NarrativeQueueState) → IsUnrecorded s (remove_all items s)
unfolding remove_all remove
remove_all-IsUnrecorded [] s = idle-IsUnrecorded s
remove_all-IsUnrecorded (i ∷ items) s =
    let rest = remove_all-IsUnrecorded items (remove i.item_id s).1 in
    record {
      recent = rest.recent;
      completed = rest.completed;
      failed = rest.failed;
      per_char = rest.per_char;
      durations = rest.durations;
    }

pop-keeps-none : (j k : ℕ) (d : Dict ℕ QueueItem) → get k d ≡ none → get k (pop j d) ≡ none
pop-keeps-none j k d h =
    let e : get k (pop j d) ≡ (if k ≡? j then none else get k d) = get-pop j k d in
    ground (arith, e, h)

remove_all-none :
    (items : List QueueItem) (k : ℕ) (s : NarrativeQueueState)
    → get k s.items ≡ none
    → get k (remove_all items s).items ≡ none
unfolding remove_all remove
remove_all-none [] k s h = h
remove_all-none (i ∷ items) k s h =
    remove_all-none items k (remove i.item_id s).1 (pop-keeps-none i.item_id k s.items h)

abbrev pub IsAbsent : NarrativeQueueState → QueueItem → Type 0
IsAbsent s i = get i.item_id s.items ≡ none

pub remove_all-IsAbsent :
    (items : List QueueItem) (s : NarrativeQueueState) → All (IsAbsent (remove_all items s)) items
unfolding remove_all remove
remove_all-IsAbsent [] s = tt
remove_all-IsAbsent (i ∷ items) s = (
  remove_all-none items i.item_id (remove i.item_id s).1 (get-pop-same i.item_id s.items),
  remove_all-IsAbsent items (remove i.item_id s).1,
)

pub cancel_all-idle :
    (now : String) (items : List QueueItem) (s : NarrativeQueueState)
    → All (IsAbsent s) items
    → cancel_all now items s ≡ s
unfolding cancel_all run_task
cancel_all-idle now [] s h = refl
cancel_all-idle now (i ∷ items) s (h, hs) =
    let idle : mark_failed now s i.item_id "cancelled" ≡ s =
      absent_idle i.item_id (fails now i.item_id "cancelled") s (==_refl i.item_id) h in
    rw idle (cancel_all-idle now items s hs)

-- The numbers from `n` on, as many as the items.
abbrev pub ids_from : ℕ → List QueueItem → List ℕ
ids_from n [] = []
ids_from n (i ∷ items) = n ∷ ids_from (n + 1) items

nil_ids : (n : ℕ) (items : List QueueItem) → is_empty items ≡ true → [] ≡ ids_from n items
nil_ids n [] h = refl
nil_ids n (i ∷ items) h = cc

remove_all-next_id :
    (items : List QueueItem) (s : NarrativeQueueState) → (remove_all items s).next_id ≡ s.next_id
unfolding remove_all remove
remove_all-next_id [] s = refl
remove_all-next_id (i ∷ items) s = remove_all-next_id items (remove i.item_id s).1

module _ (campaign_uuid : Option String) (resolve_character_name : ℕ → Option String)
    (now : String) where
  respawn_all-IsUnrecorded :
      (items : List QueueItem) (s : NarrativeQueueState)
      → IsUnrecorded s (respawn_all campaign_uuid resolve_character_name now items s).1
  unfolding respawn_all regenerate enqueue_and_spawn enqueue
  respawn_all-IsUnrecorded [] s = idle-IsUnrecorded s
  respawn_all-IsUnrecorded (i ∷ items) s =
      let rest =
        respawn_all-IsUnrecorded items
          (regenerate campaign_uuid resolve_character_name now i.character_id s).1 in
      record {
        recent = rest.recent;
        completed = rest.completed;
        failed = rest.failed;
        per_char = rest.per_char;
        durations = rest.durations;
      }

  respawn_all-ids :
      (items : List QueueItem) (s : NarrativeQueueState)
      → (respawn_all campaign_uuid resolve_character_name now items s).0 ≡ ids_from s.next_id items
  unfolding respawn_all regenerate enqueue_and_spawn enqueue
  respawn_all-ids [] s = refl
  respawn_all-ids (i ∷ items) s =
      ap (λ (x : List ℕ). s.next_id ∷ x)
        (respawn_all-ids items
          (regenerate campaign_uuid resolve_character_name now i.character_id s).1)

  -- In any state and for any requested ids, a reorder records nothing as ended, although it cancels
  -- the tasks of the queued items: the recent items, the counts of completed and failed items, the
  -- statistics of the characters and the total of the durations stay as they are. It returns one new id
  -- for each item that it puts back, ascending from the next id on.
  pub reorder_queued_lem :
      (requested_ids : List ℕ) (s : NarrativeQueueState)
      → IsUnrecorded s (reorder_queued campaign_uuid resolve_character_name now requested_ids s).1
        × ((reorder_queued campaign_uuid resolve_character_name now requested_ids s).0
            ≡ ids_from s.next_id (ordered_items requested_ids (snapshot s).queued))
  unfolding reorder_queued
  reorder_queued_lem requested_ids s =
      let queued = (snapshot s).queued in
      let ordered = ordered_items requested_ids queued in
      let bare = remove_all queued s in
      let idle = cancel_all-idle now queued bare (remove_all-IsAbsent queued s) in
      elim (Bool-cases (is_empty ordered)) [
        | inl e ↦ rw e (idle-IsUnrecorded s, nil_ids s.next_id ordered e)
        | inr e ↦ rw e (
            rw idle (
              IsUnrecorded-trans s bare _ (remove_all-IsUnrecorded queued s)
                  (respawn_all-IsUnrecorded ordered bare),
              respawn_all-ids ordered bare
                  ∙ ap (λ n. ids_from n ordered) (remove_all-next_id queued s),
            ))
      ]
