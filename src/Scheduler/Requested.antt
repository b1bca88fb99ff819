-- ===== src/Scheduler/Requested.antt =====
-- The order of a reorder, by the ids: what is requested and waits, each once, then the rest.
use ck3_llm_chronicler.Base.{
  ℕ, true, false, not, ◌&&◌, List, [], ◌∷◌, ◌++◌, none, some, ◌≡◌, refl, sym, ap, ap₂, ◌∙◌, arith,
  inl, inr, nat_order, get, member, member-dedupe, dedupe, filter, Bool-cases, Option-cases,
  if◌then◌else◌, is_empty, ◌≡?◌, eq_of_≡?, ≡?_refl,
}
use ck3_llm_chronicler.Queue.{QueueItem}
use ck3_llm_chronicler.Scheduler.{requested_items, ordered_items}
use ck3_llm_chronicler.Scheduler.Ordering.{
  ids, by_id, unseen, requested-none, requested-some, get-by_id, unseen-nil,
}

-- The requested ids that are ids of the queue, each where it first comes, and then the other ids of the
-- queue as they are.
abbrev pub new_order : List ℕ → List ℕ → List ℕ
new_order requested_ids queued =
    dedupe [] (filter (λ k. member k queued) requested_ids)
    ++ filter (λ k. not (member k requested_ids)) queued

get-none :
    (k : ℕ) (queued : List QueueItem) → get k (by_id queued) ≡ none → member k (ids queued) ≡ false
unfolding get member
get-none k [] h = refl
get-none k (i ∷ queued) h = elim (Bool-cases (k ≡? i.item_id)) [
  | inl e ↦ absurd (ground (arith, h, e))
  | inr e ↦ ground (arith, e, get-none k queued (ground (arith, h, e)))
]

get-some :
    (k : ℕ) (queued : List QueueItem) (item : QueueItem)
    → get k (by_id queued) ≡ some item
    → member k (ids queued) ≡ true
unfolding get member
get-some k [] item h = absurd cc
get-some k (i ∷ queued) item h = elim (Bool-cases (k ≡? i.item_id)) [
  | inl e ↦ ground (arith, e)
  | inr e ↦ ground (arith, e, get-some k queued item (ground (arith, h, e)))
]

ids-requested_items :
    (queued : List QueueItem) (seen rids : List ℕ)
    → ids (requested_items (by_id queued) seen rids)
      ≡ dedupe seen (filter (λ k. member k (ids queued)) rids)
unfolding requested_items dedupe
ids-requested_items queued seen [] = refl
ids-requested_items queued seen (rid ∷ rids) = elim (Bool-cases (member rid seen)) [
  | inl s ↦
      let skipped : (if member rid seen then none else get rid (by_id queued)) ≡ none = rw s refl in
      rw (requested-none (by_id queued) seen rid rids skipped)
        (elim (Bool-cases (member rid (ids queued))) [
          | inl m ↦ rw (m, dedupe) (rw s (ids-requested_items queued seen rids))
          | inr m ↦ rw m (ids-requested_items queued seen rids)
        ])
  | inr s ↦ elim (Option-cases (get rid (by_id queued))) [
    | inl g ↦
        let skipped : (if member rid seen then none else get rid (by_id queued)) ≡ none = rw s g in
        rw (requested-none (by_id queued) seen rid rids skipped)
          (rw (get-none rid queued g) (ids-requested_items queued seen rids))
    | inr (item, g) ↦
        let found : (if member rid seen then none else get rid (by_id queued)) ≡ some item =
          rw s g in
        rw (requested-some (by_id queued) seen rid rids item found) (
          rw (get-some rid queued item g, dedupe)
            (rw s (
              rw (← get-by_id rid queued item g)
                (ap (λ (l : List ℕ). rid ∷ l) (ids-requested_items queued (rid ∷ seen) rids)))))
  ]
]

ids-unseen :
    (ks : List ℕ) (queued : List QueueItem)
    → ids (unseen ks queued) ≡ filter (λ k. not (member k ks)) (ids queued)
ids-unseen ks [] = refl
ids-unseen ks (i ∷ queued) = elim (Bool-cases (member i.item_id ks)) [
  | inl e ↦ rw e (ids-unseen ks queued)
  | inr e ↦ rw e (ap (λ (l : List ℕ). i.item_id ∷ l) (ids-unseen ks queued))
]

ids-append : (xs ys : List QueueItem) → ids (xs ++ ys) ≡ ids xs ++ ids ys
ids-append [] ys = refl
ids-append (x ∷ xs) ys = ap (λ (z : List ℕ). x.item_id ∷ z) (ids-append xs ys)

member-filter :
    (k : ℕ) (queued rids : List ℕ)
    → member k (filter (λ j. member j queued) rids) ≡ (member k rids && member k queued)
unfolding member
member-filter k queued [] = refl
member-filter k queued (r ∷ rids) = elim (Bool-cases (k ≡? r)) [
  | inl e ↦
      let here : k ≡ r = eq_of_≡? k r e in
      let own : (k ≡? k) ≡ true = ≡?_refl k in
      rw (← here) (ground (arith, own, member-filter k queued rids))
  | inr e ↦ ground (arith, e, member-filter k queued rids)
]

-- A filter that differs only where an item is not in the list.
filter-same :
    (rids : List ℕ) (queued xs : List ℕ)
    → ((k : ℕ) → member k xs ≡ true → member k queued ≡ true)
    → filter (λ k. not (member k (dedupe [] (filter (λ j. member j queued) rids)))) xs
      ≡ filter (λ k. not (member k rids)) xs
unfolding member
filter-same rids queued [] h = refl
filter-same rids queued (x ∷ xs) h =
    let own : (x ≡? x) ≡ true = ≡?_refl x in
    let there : member x queued ≡ true = h x (ground (arith, own)) in
    let found : member x (dedupe [] (filter (λ j. member j queued) rids)) ≡ member x rids =
      member-dedupe x [] (filter (λ j. member j queued) rids)
      ∙ (member-filter x queued rids ∙ ground (arith, there)) in
    let rest = filter-same rids queued xs (λ k m. h k (ground (arith, m))) in
    elim (Bool-cases (member x rids)) [
      | inl e ↦ rw (found, e) rest
      | inr e ↦ rw (found, e) (ap (λ (l : List ℕ). x ∷ l) rest)
    ]

ids-ordered :
    (requested_ids : List ℕ) (queued : List QueueItem)
    → let first = requested_items (by_id queued) [] requested_ids in
      ids (first ++ unseen (ids first) queued) ≡ new_order requested_ids (ids queued)
ids-ordered requested_ids queued =
    let first = requested_items (by_id queued) [] requested_ids in
    let found = ids-requested_items queued [] requested_ids in
    ids-append first (unseen (ids first) queued)
    ∙ ap₂ (λ (l r : List ℕ). l ++ r) found
        (ids-unseen (ids first) queued
          ∙ (ap (λ (ks : List ℕ). filter (λ k. not (member k ks)) (ids queued)) found
              ∙ filter-same requested_ids (ids queued) (ids queued) (λ k m. m)))

pub ordered-new_order :
    (requested_ids : List ℕ) (queued : List QueueItem)
    → is_empty (ordered_items requested_ids queued) ≡ false
    → ids (ordered_items requested_ids queued) ≡ new_order requested_ids (ids queued)
unfolding ordered_items
ordered-new_order requested_ids queued h =
    let first = requested_items (by_id queued) [] requested_ids in
    elim (Bool-cases (is_empty first)) [
      | inl e ↦ absurd (ground (arith, rw e at h))
      | inr e ↦ rw e (ids-ordered requested_ids queued)
    ]

empty-nil : (xs : List QueueItem) → is_empty xs ≡ true → xs ≡ []
empty-nil [] h = refl
empty-nil (x ∷ xs) h = absurd cc

-- Where no requested id waits, the new order is the old one.
pub unordered-new_order :
    (requested_ids : List ℕ) (queued : List QueueItem)
    → is_empty (ordered_items requested_ids queued) ≡ true
    → ids queued ≡ new_order requested_ids (ids queued)
unfolding ordered_items
unordered-new_order requested_ids queued h =
    let first = requested_items (by_id queued) [] requested_ids in
    elim (Bool-cases (is_empty first)) [
      | inl e ↦
          let nothing = empty-nil first e in
          sym (
            ap (λ (l : List QueueItem). ids (l ++ unseen (ids l) queued)) nothing
            ∙ ap ids (unseen-nil queued))
          ∙ ids-ordered requested_ids queued
      | inr e ↦ absurd (kept first (unseen (ids first) queued) e (rw e at h))
    ]
  where
    kept : (xs ys : List QueueItem) → is_empty xs ≡ false → is_empty (xs ++ ys) ≡ true → ⊥
    kept [] ys a b = cc
    kept (x ∷ xs) ys a b = cc
