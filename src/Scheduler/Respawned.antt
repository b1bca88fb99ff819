-- ===== src/Scheduler/Respawned.antt =====
-- A reorder puts every waiting item back once, in the new order.
use ck3_llm_chronicler.Base.{
  ℕ, ◌+◌, ◌<◌, String, true, List, [], ◌∷◌, ◌++◌, Option, append_assoc, append-nil, ◌≡◌, refl, sym,
  ap, subst, ◌∙◌, arith, inl, inr, nat_order, All, filter, Bool-cases, is_empty, leb, sort_by,
  insert_by,
}
use ck3_llm_chronicler.Queue.{
  QueueItem, NarrativeQueueState, initial, is_queued, queued_item, enqueue,
}
use ck3_llm_chronicler.Queue.Views.{item_key, snapshot}
use ck3_llm_chronicler.Queue.Runs.{Call, run}
use ck3_llm_chronicler.Queue.Keys.{IsKeyed, run-IsKeyed, values, put-values}
use ck3_llm_chronicler.Queue.Numbers.{IsNumbered, enqueue-IsNumbered, run-IsNumbered}
use ck3_llm_chronicler.Scheduler.{
  enqueue_and_spawn, regenerate, ordered_items, remove_all, respawn_all, reorder_queued,
}
use ck3_llm_chronicler.Scheduler.Ordering.{ids, ordered_items-Perm}
use ck3_llm_chronicler.Scheduler.Requested.{new_order, ordered-new_order, unordered-new_order}
use ck3_llm_chronicler.Scheduler.Reorder.{remove_all-IsAbsent, cancel_all-idle}
use ck3_llm_chronicler.Scheduler.Waiting.{
  waiting, characters, queued_in, waiting-Distinct, remove_all-IsNumbered, bare-queued,
}
use mathlib.Core.List.{Perm}
use mathlib.Core.List.Perm

abbrev AreBelow : ℕ → List QueueItem → Type 0
AreBelow n = All (λ (i : QueueItem). i.item_id < n)

-- The ids ascend.
abbrev Ascends : List QueueItem → Type 0
Ascends [] = Unit
Ascends (x ∷ xs) = All (λ (y : QueueItem). x.item_id < y.item_id) xs × Ascends xs

below-snoc :
    (n : ℕ) (xs : List QueueItem) (x : QueueItem)
    → AreBelow n xs
    → x.item_id ≡ n
    → AreBelow (n + 1) (xs ++ (x ∷ []))
below-snoc n [] x b e = (omega (arith, e), tt)
below-snoc n (y ∷ xs) x (h, b) e = (omega (arith, h), below-snoc n xs x b e)

above-snoc :
    (y : QueueItem) (xs : List QueueItem) (x : QueueItem)
    → All (λ (z : QueueItem). y.item_id < z.item_id) xs
    → y.item_id < x.item_id
    → All (λ (z : QueueItem). y.item_id < z.item_id) (xs ++ (x ∷ []))
above-snoc y [] x a h = (h, tt)
above-snoc y (z ∷ xs) x (g, a) h = (g, above-snoc y xs x a h)

Ascends-snoc :
    (n : ℕ) (xs : List QueueItem) (x : QueueItem)
    → Ascends xs
    → AreBelow n xs
    → x.item_id ≡ n
    → Ascends (xs ++ (x ∷ []))
Ascends-snoc n [] x a b e = (tt, tt)
Ascends-snoc n (y ∷ xs) x (h, a) (l, b) e =
    (above-snoc y xs x h (omega (arith, l, e)), Ascends-snoc n xs x a b e)

insert-first :
    (x : QueueItem) (xs : List QueueItem)
    → All (λ (y : QueueItem). x.item_id < y.item_id) xs
    → insert_by item_key x xs ≡ x ∷ xs
unfolding insert_by
insert-first x [] h = refl
insert-first x (y ∷ xs) (h, t) =
    let le : leb x.item_id y.item_id ≡ true = ground (arith, h) in rw le refl

sort-Ascends : (xs : List QueueItem) → Ascends xs → sort_by item_key xs ≡ xs
unfolding sort_by
sort-Ascends [] a = refl
sort-Ascends (x ∷ xs) (h, a) = rw (sort-Ascends xs a) (insert-first x xs h)

queued-snoc :
    (xs : List QueueItem) (x : QueueItem)
    → is_queued x.status ≡ true
    → filter (λ (i : QueueItem). is_queued i.status) (xs ++ (x ∷ []))
      ≡ filter (λ (i : QueueItem). is_queued i.status) xs ++ (x ∷ [])
queued-snoc [] x h = rw h refl
queued-snoc (y ∷ xs) x h = ground (arith, queued-snoc xs x h)

characters-append :
    (xs ys : List QueueItem) → characters (xs ++ ys) ≡ characters xs ++ characters ys
characters-append [] ys = refl
characters-append (x ∷ xs) ys = ap (λ (l : List ℕ). x.character_id ∷ l) (characters-append xs ys)

module _ (campaign_uuid : Option String) (resolve_character_name : ℕ → Option String)
    (now : String) where
  abbrev respawned_state : QueueItem → NarrativeQueueState → NarrativeQueueState
  respawned_state i s =
      enqueue now s i.character_id "biography" campaign_uuid (resolve_character_name i.character_id)

  one-queued :
      (i : QueueItem) (s : NarrativeQueueState)
      → IsNumbered s
      → queued_in (respawned_state i s).items
        ≡ queued_in s.items
          ++ (queued_item now s i.character_id "biography" campaign_uuid
                (resolve_character_name i.character_id)
              ∷ [])
  unfolding enqueue
  one-queued i s u =
      let item =
        queued_item now s i.character_id "biography" campaign_uuid
          (resolve_character_name i.character_id) in
      ap (filter (λ (x : QueueItem). is_queued x.status))
        (put-values s.next_id item s.items (u s.next_id (omega arith)))
      ∙ queued-snoc (values s.items) item refl

  fits :
      (i : QueueItem) (s : NarrativeQueueState) (fs : List QueueItem)
      → AreBelow s.next_id fs
      → AreBelow (respawned_state i s).next_id (
          fs
          ++ (queued_item now s i.character_id "biography" campaign_uuid
                (resolve_character_name i.character_id)
              ∷ []))
  unfolding enqueue
  fits i s fs b =
      below-snoc s.next_id fs
        (queued_item now s i.character_id "biography" campaign_uuid
          (resolve_character_name i.character_id))
        b refl

  -- Behind what waits in ascending order, the items are put back in their order.
  respawn_all-queued :
      (items : List QueueItem) (s : NarrativeQueueState) (fs : List QueueItem)
      → IsNumbered s
      → queued_in s.items ≡ fs
      → Ascends fs
      → AreBelow s.next_id fs
      → let t = (respawn_all campaign_uuid resolve_character_name now items s).1 in
        (characters (queued_in t.items) ≡ characters fs ++ characters items)
        × Ascends (queued_in t.items)
  unfolding respawn_all regenerate enqueue_and_spawn
  respawn_all-queued [] s fs u e a b =
      (ap characters e ∙ sym (append-nil (characters fs)), subst Ascends (sym e) a)
  respawn_all-queued (i ∷ items) s fs u e a b =
      let name = resolve_character_name i.character_id in
      let item = queued_item now s i.character_id "biography" campaign_uuid name in
      let grown : queued_in (respawned_state i s).items ≡ fs ++ (item ∷ []) =
        one-queued i s u ∙ ap (λ (l : List QueueItem). l ++ (item ∷ [])) e in
      let (chars, asc) =
        respawn_all-queued items (respawned_state i s) (fs ++ (item ∷ []))
          (enqueue-IsNumbered now s i.character_id "biography" campaign_uuid name u) grown
          (Ascends-snoc s.next_id fs item a b refl) (fits i s fs b) in
      (
        chars
            ∙ ap (λ (l : List ℕ). l ++ characters items) (characters-append fs (item ∷ []))
            ∙ append_assoc (characters fs) (i.character_id ∷ []) (characters items),
        asc,
      )

  sorted_waiting :
      (t : NarrativeQueueState)
      → Ascends (queued_in t.items)
      → characters (waiting t) ≡ characters (queued_in t.items)
  unfolding snapshot
  sorted_waiting t asc = ap characters (sort-Ascends (queued_in t.items) asc)

  waiting_after :
      (requested_ids : List ℕ) (s : NarrativeQueueState)
      → IsKeyed s.items
      → IsNumbered s
      → let t = (reorder_queued campaign_uuid resolve_character_name now requested_ids s).1 in
        (order : List QueueItem) × Perm order (waiting s)
        × (characters (waiting t) ≡ characters order)
        × (ids order ≡ new_order requested_ids (ids (waiting s)))
  unfolding reorder_queued
  waiting_after requested_ids s k u =
      let queued = waiting s in
      let ordered = ordered_items requested_ids queued in
      let bare = remove_all queued s in
      let idle = cancel_all-idle now queued bare (remove_all-IsAbsent queued s) in
      elim (Bool-cases (is_empty ordered)) [
        | inl e ↦ rw e (queued, Perm.refl queued, refl, unordered-new_order requested_ids queued e)
        | inr e ↦
            let (chars, asc) =
              respawn_all-queued ordered bare [] (remove_all-IsNumbered queued s u)
                (bare-queued s k) tt tt in
            rw e (
              rw idle (
                ordered,
                ordered_items-Perm requested_ids queued (waiting-Distinct s k) e,
                sorted_waiting (respawn_all campaign_uuid resolve_character_name now ordered bare).1
                      asc
                    ∙ chars,
                ordered-new_order requested_ids queued e,
              ))
      ]

  -- After any calls of the queue's methods, and for any requested ids, a reorder leaves waiting, in the
  -- order of their new ids, exactly one item for each item that waited: the characters of the waiting
  -- items are those of a permutation of the items that waited before, so none is dropped, added or
  -- doubled; the old ids in that order are the requested ids that waited, each where it is requested
  -- first, and then the other ids as they were.
  pub reorder_queued-waiting :
      (capacity window : ℕ) (calls : List Call) (requested_ids : List ℕ)
      → let s = run calls (initial capacity window) in
        let t = (reorder_queued campaign_uuid resolve_character_name now requested_ids s).1 in
        (order : List QueueItem) × Perm order (waiting s)
        × (characters (waiting t) ≡ characters order)
        × (ids order ≡ new_order requested_ids (ids (waiting s)))
  reorder_queued-waiting capacity window calls requested_ids =
      waiting_after requested_ids (run calls (initial capacity window))
        (run-IsKeyed capacity window calls) (run-IsNumbered capacity window calls)
