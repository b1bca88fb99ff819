-- ===== src/Scheduler/Ordering.antt =====
-- The order of a reorder: the queued items, each once.
use ck3_llm_chronicler.Base.{
  ℕ, false, not, ◌||◌, List, [], ◌∷◌, ◌++◌, map, none, some, ◌≡◌, refl, ap, subst, ◌∙◌, arith, inl,
  inr, nat_order, Dict, get, member, Distinct, filter, Bool-cases, Option-cases, if◌then◌else◌,
  is_empty, ◌≡?◌, eq_of_≡?,
}
use ck3_llm_chronicler.Queue.{QueueItem}
use ck3_llm_chronicler.Scheduler.{requested_items, ordered_items}
use mathlib.Core.List.{Perm}
use mathlib.Core.List.Perm

abbrev pub ids : List QueueItem → List ℕ
ids items = map (λ i. i.item_id) items

abbrev pub by_id : List QueueItem → Dict ℕ QueueItem
by_id items = map (λ i. (i.item_id, i)) items

-- The items that neither list has the id of.
abbrev left : List ℕ → List ℕ → List QueueItem → List QueueItem
left first seen queued =
    filter (λ (i : QueueItem). not (member i.item_id first || member i.item_id seen)) queued

abbrev pub unseen : List ℕ → List QueueItem → List QueueItem
unseen seen queued = filter (λ (i : QueueItem). not (member i.item_id seen)) queued

unseen-absent :
    (rid : ℕ) (seen : List ℕ) (queued : List QueueItem)
    → member rid (ids queued) ≡ false
    → unseen (rid ∷ seen) queued ≡ unseen seen queued
unfolding member
unseen-absent rid seen [] h = refl
unseen-absent rid seen (i ∷ queued) h =
    let apart : (i.item_id ≡? rid) ≡ false = ground (arith, h) in
    ground (arith, apart, unseen-absent rid seen queued (ground (arith, h)))

-- The item that is found is taken out of those that are not seen.
found-Perm :
    (rid : ℕ) (seen : List ℕ) (item : QueueItem) (queued : List QueueItem)
    → Distinct (ids queued)
    → member rid seen ≡ false
    → get rid (by_id queued) ≡ some item
    → Perm (item ∷ unseen (rid ∷ seen) queued) (unseen seen queued)
unfolding get member
found-Perm rid seen item [] d n h = absurd cc
found-Perm rid seen item (i ∷ queued) (f, d) n h = elim (Bool-cases (rid ≡? i.item_id)) [
  | inl e ↦
      let here : rid ≡ i.item_id = eq_of_≡? rid i.item_id e in
      let same : i ≡ item = ground (arith, h, e) in
      let absent : member rid (ids queued) ≡ false = rw here f in
      let l : unseen (rid ∷ seen) (i ∷ queued) ≡ unseen seen queued =
        ground (arith, e, unseen-absent rid seen queued absent) in
      let n' : member i.item_id seen ≡ false = rw (← here) n in
      let r : unseen seen (i ∷ queued) ≡ i ∷ unseen seen queued = ground (arith, n') in
      rw (l, r) (rw same (Perm.refl (item ∷ unseen seen queued)))
  | inr e ↦
      let apart : (i.item_id ≡? rid) ≡ false = ground (arith, e) in
      let rest = found-Perm rid seen item queued d n (ground (arith, h, e)) in
      elim (Bool-cases (member i.item_id seen)) [
        | inl s ↦
            let l : unseen (rid ∷ seen) (i ∷ queued) ≡ unseen (rid ∷ seen) queued =
              ground (arith, s) in
            let r : unseen seen (i ∷ queued) ≡ unseen seen queued = ground (arith, s) in
            rw (l, r) rest
        | inr s ↦
            let l : unseen (rid ∷ seen) (i ∷ queued) ≡ i ∷ unseen (rid ∷ seen) queued =
              ground (arith, s, apart) in
            let r : unseen seen (i ∷ queued) ≡ i ∷ unseen seen queued = ground (arith, s) in
            rw (l, r)
              (Perm.trans (Perm.swap i item (unseen (rid ∷ seen) queued)) (Perm.cons i rest))
      ]
]

module _ (d : Dict ℕ QueueItem) (seen : List ℕ) (rid : ℕ) (rids : List ℕ) where
  pub requested-none :
      (if member rid seen then none else get rid d) ≡ none
      → requested_items d seen (rid ∷ rids) ≡ requested_items d seen rids
  unfolding requested_items
  requested-none e = ground (arith, e)

  pub requested-some :
      (item : QueueItem)
      → (if member rid seen then none else get rid d) ≡ some item
      → requested_items d seen (rid ∷ rids) ≡ item ∷ requested_items d (rid ∷ seen) rids
  unfolding requested_items
  requested-some item e = ground (arith, e)

pub get-by_id :
    (k : ℕ) (queued : List QueueItem) (item : QueueItem)
    → get k (by_id queued) ≡ some item
    → k ≡ item.item_id
unfolding get
get-by_id k [] item h = absurd cc
get-by_id k (i ∷ queued) item h = elim (Bool-cases (k ≡? i.item_id)) [
  | inl e ↦
      let same : i ≡ item = ground (arith, h, e) in
      eq_of_≡? k i.item_id e ∙ ap (λ (x : QueueItem). x.item_id) same
  | inr e ↦ get-by_id k queued item (ground (arith, h, e))
]

left-shift :
    (rid : ℕ) (first seen : List ℕ) (queued : List QueueItem)
    → left (rid ∷ first) seen queued ≡ left first (rid ∷ seen) queued
unfolding member
left-shift rid first seen [] = refl
left-shift rid first seen (i ∷ queued) = ground (arith, left-shift rid first seen queued)

left-nil : (seen : List ℕ) (queued : List QueueItem) → left [] seen queued ≡ unseen seen queued
unfolding member
left-nil seen [] = refl
left-nil seen (i ∷ queued) = ground (arith, left-nil seen queued)

left-of_nil :
    (first : List ℕ) (queued : List QueueItem) → left first [] queued ≡ unseen first queued
unfolding member
left-of_nil first [] = refl
left-of_nil first (i ∷ queued) = ground (arith, left-of_nil first queued)

pub unseen-nil : (queued : List QueueItem) → unseen [] queued ≡ queued
unfolding member
unseen-nil [] = refl
unseen-nil (i ∷ queued) = ap (λ (l : List QueueItem). i ∷ l) (unseen-nil queued)

-- What is requested and what is left are together what is not seen.
requested-Perm :
    (queued : List QueueItem) (seen rids : List ℕ)
    → Distinct (ids queued)
    → let first = requested_items (by_id queued) seen rids in
      Perm (first ++ left (ids first) seen queued) (unseen seen queued)
unfolding requested_items
requested-Perm queued seen [] d = rw (left-nil seen queued) (Perm.refl (unseen seen queued))
requested-Perm queued seen (rid ∷ rids) d =
    elim (Option-cases (if member rid seen then none else get rid (by_id queued))) [
      | inl e ↦
          rw (requested-none (by_id queued) seen rid rids e) (requested-Perm queued seen rids d)
      | inr (item, e) ↦
          let new : member rid seen ≡ false = ground (arith, e) in
          let found : get rid (by_id queued) ≡ some item = ground (arith, e) in
          let later = requested_items (by_id queued) (rid ∷ seen) rids in
          let shifted : left (item.item_id ∷ ids later) seen queued
              ≡ left (ids later) (rid ∷ seen) queued =
            rw (← get-by_id rid queued item found) (left-shift rid (ids later) seen queued) in
          rw (requested-some (by_id queued) seen rid rids item e) (
            rw shifted (
              Perm.trans (Perm.cons item (requested-Perm queued (rid ∷ seen) rids d))
                (found-Perm rid seen item queued d new found)))
    ]

-- Where some request is a queued item, the order is a permutation of the queued items.
pub ordered_items-Perm :
    (requested_ids : List ℕ) (queued : List QueueItem)
    → Distinct (ids queued)
    → is_empty (ordered_items requested_ids queued) ≡ false
    → Perm (ordered_items requested_ids queued) queued
unfolding ordered_items
ordered_items-Perm requested_ids queued d h =
    let first = requested_items (by_id queued) [] requested_ids in
    elim (Bool-cases (is_empty first)) [
      | inl e ↦ absurd (ground (arith, rw e at h))
      | inr e ↦ rw e (
          subst (λ (l : List QueueItem). Perm (first ++ l) queued) (left-of_nil (ids first) queued)
            (subst (λ (l : List QueueItem). Perm (first ++ left (ids first) [] queued) l)
              (unseen-nil queued) (requested-Perm queued [] requested_ids d)))
    ]
