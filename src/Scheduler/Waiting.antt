-- ===== src/Scheduler/Waiting.antt =====
-- What waits in the queue after a reorder.
use ck3_llm_chronicler.Base.{
  ℕ, Bool, true, false, ◌||◌, List, [], ◌∷◌, map, ◌≡◌, refl, ap, ◌∙◌, arith, inl, inr, nat_order,
  All, Dict, pop, keys, member, Distinct, filter, Bool-cases, ◌≡?◌, ≡?_refl, ◌≤?◌, sort_by,
  insert_by,
}
use ck3_llm_chronicler.Queue.{QueueItem, NarrativeQueueState, is_queued, remove}
use ck3_llm_chronicler.Queue.Views.{item_key, snapshot}
use ck3_llm_chronicler.Queue.Keys.{IsKeyed, values}
use ck3_llm_chronicler.Queue.Numbers.{IsNumbered, pop-Unused}
use ck3_llm_chronicler.Scheduler.{remove_all}
use ck3_llm_chronicler.Scheduler.Ordering.{ids}

-- The queued items as the pages see them, and their characters.
abbrev pub waiting : NarrativeQueueState → List QueueItem
waiting s = (snapshot s).queued

abbrev pub characters : List QueueItem → List ℕ
characters items = map (λ i. i.character_id) items

abbrev pub queued_in : Dict ℕ QueueItem → List QueueItem
queued_in d = filter (λ (i : QueueItem). is_queued i.status) (values d)

member-insert_by :
    (k : ℕ) (x : QueueItem) (xs : List QueueItem)
    → member k (ids (insert_by item_key x xs)) ≡ ((k ≡? x.item_id) || member k (ids xs))
unfolding insert_by member
member-insert_by k x [] = refl
member-insert_by k x (y ∷ ys) = ground (arith, member-insert_by k x ys)

member-sort_by :
    (k : ℕ) (xs : List QueueItem) → member k (ids (sort_by item_key xs)) ≡ member k (ids xs)
unfolding sort_by member
member-sort_by k [] = refl
member-sort_by k (x ∷ xs) =
    member-insert_by k x (sort_by item_key xs)
    ∙ ap (λ (b : Bool). (k ≡? x.item_id) || b) (member-sort_by k xs)

insert_by-Distinct :
    (x : QueueItem) (xs : List QueueItem)
    → member x.item_id (ids xs) ≡ false
    → Distinct (ids xs)
    → Distinct (ids (insert_by item_key x xs))
unfolding insert_by member
insert_by-Distinct x [] f d = (refl, tt)
insert_by-Distinct x (y ∷ ys) f (g, d) = elim (Bool-cases (item_key x ≤? item_key y)) [
  | inl e ↦ rw (e, Distinct) (f, (g, d))
  | inr e ↦
      let apart : (y.item_id ≡? x.item_id) ≡ false = ground (arith, f) in
      rw (e, Distinct)
        (
          member-insert_by y.item_id x ys ∙ ground (arith, apart, g),
          insert_by-Distinct x ys (ground (arith, f)) d,
        )
]

sort_by-Distinct : (xs : List QueueItem) → Distinct (ids xs) → Distinct (ids (sort_by item_key xs))
unfolding sort_by
sort_by-Distinct [] d = tt
sort_by-Distinct (x ∷ xs) (f, d) =
    insert_by-Distinct x (sort_by item_key xs) (member-sort_by x.item_id xs ∙ f)
      (sort_by-Distinct xs d)

queued-absent :
    (k : ℕ) (d : Dict ℕ QueueItem)
    → All (λ e. e.0 ≡ e.1.item_id) d
    → member k (keys d) ≡ false
    → member k (ids (queued_in d)) ≡ false
unfolding member
queued-absent k [] t h = refl
queued-absent k ((j, w) ∷ d) (e, t) h =
    let other : (k ≡? w.item_id) ≡ false = rw (← e) (ground (arith, h)) in
    let rest = queued-absent k d t (ground (arith, h)) in
    elim (Bool-cases (is_queued w.status)) [
      | inl q ↦ rw q (ground (arith, other, rest))
      | inr q ↦ rw q rest
    ]

queued-Distinct : (d : Dict ℕ QueueItem) → IsKeyed d → Distinct (ids (queued_in d))
queued-Distinct [] h = tt
queued-Distinct ((j, w) ∷ d) ((e, t), (f, u)) =
    let rest = queued-Distinct d (t, u) in
    elim (Bool-cases (is_queued w.status)) [
      | inl q ↦ rw (q, Distinct) (rw (← e) (queued-absent j d t f), rest)
      | inr q ↦ rw (q, Distinct) rest
    ]

pub waiting-Distinct : (s : NarrativeQueueState) → IsKeyed s.items → Distinct (ids (waiting s))
unfolding snapshot
waiting-Distinct s h = sort_by-Distinct (queued_in s.items) (queued-Distinct s.items h)

-- Every queued item has an id of the list.
abbrev AreAmong : List ℕ → Dict ℕ QueueItem → Type 0
AreAmong ks d = All (λ e. is_queued e.1.status ≡ true → member e.0 ks ≡ true) d

weaken :
    (ks ls : List ℕ) (d : Dict ℕ QueueItem)
    → ((k : ℕ) → member k ks ≡ true → member k ls ≡ true)
    → AreAmong ks d
    → AreAmong ls d
weaken ks ls [] g h = tt
weaken ks ls ((j, w) ∷ d) g (h, t) = ((λ q. g j (h q)), weaken ks ls d g t)

queued-AreAmong :
    (d : Dict ℕ QueueItem) → All (λ e. e.0 ≡ e.1.item_id) d → AreAmong (ids (queued_in d)) d
unfolding member
queued-AreAmong [] t = tt
queued-AreAmong ((j, w) ∷ d) (e, t) = (
  (λ q. let r : (j ≡? w.item_id) ≡ true = rw (← e) (≡?_refl j) in rw q (ground (arith, r))),
  weaken (ids (queued_in d)) (ids (queued_in ((j, w) ∷ d))) d (λ k m. ground (arith, m))
      (queued-AreAmong d t),
)

pop-AreAmong :
    (k : ℕ) (ks : List ℕ) (d : Dict ℕ QueueItem) → AreAmong (k ∷ ks) d → AreAmong ks (pop k d)
unfolding pop member
pop-AreAmong k ks [] h = tt
pop-AreAmong k ks ((j, w) ∷ d) (h, t) = elim (Bool-cases (k ≡? j)) [
  | inl e ↦ rw (e, All) (pop-AreAmong k ks d t)
  | inr e ↦
      let apart : (j ≡? k) ≡ false = ground (arith, e) in
      rw (e, All) ((λ q. ground (arith, h q, apart)), pop-AreAmong k ks d t)
]

none-queued : (d : Dict ℕ QueueItem) → AreAmong [] d → queued_in d ≡ []
unfolding member
none-queued [] h = refl
none-queued ((j, w) ∷ d) (h, t) = elim (Bool-cases (is_queued w.status)) [
  | inl q ↦ absurd (let bad = h q in cc)
  | inr q ↦ rw q (none-queued d t)
]

remove_all-AreAmong :
    (items : List QueueItem) (s : NarrativeQueueState)
    → AreAmong (ids items) s.items
    → AreAmong [] (remove_all items s).items
unfolding remove_all remove
remove_all-AreAmong [] s h = h
remove_all-AreAmong (i ∷ items) s h =
    remove_all-AreAmong items (remove i.item_id s).1 (pop-AreAmong i.item_id (ids items) s.items h)

pub remove_all-IsNumbered :
    (items : List QueueItem) (s : NarrativeQueueState)
    → IsNumbered s
    → IsNumbered (remove_all items s)
unfolding remove_all remove
remove_all-IsNumbered [] s u = u
remove_all-IsNumbered (i ∷ items) s u =
    remove_all-IsNumbered items (remove i.item_id s).1 (pop-Unused s.next_id i.item_id s.items u)

-- Nothing waits once the waiting items are taken out.
pub bare-queued :
    (s : NarrativeQueueState) → IsKeyed s.items → queued_in (remove_all (waiting s) s).items ≡ []
unfolding snapshot
bare-queued s (t, u) = none-queued (remove_all (waiting s) s).items (
    remove_all-AreAmong (waiting s) s (
      weaken (ids (queued_in s.items)) (ids (waiting s)) s.items
        (λ k m. member-sort_by k (queued_in s.items) ∙ m) (queued-AreAmong s.items t)))
