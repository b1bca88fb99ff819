-- ===== src/Queue/Frames.antt =====
-- The frames of the queue and the items it holds: what stays true when a frame is sent.
use ck3_llm_chronicler.Base.{
  ℕ, ◌<◌, ◌≤◌, ◌⊎◌, ap, Bool, true, false, List, [], ◌∷◌, Option, none, some, ◌≡◌, sym, ◌∙◌, arith,
  inl, inr, nat_order, Dict, get, put, pop, get-put, get-pop, if◌then◌else◌, ◌≡?◌, eq_of_≡?,
  Bool-cases, ◌==◌, subst,
}
use ck3_llm_chronicler.Queue.{
  QueueStatus, queued, generating, completed, failed, QueueItem, is_queued,
}

-- The status in the last frame about an item; the newest frame is the first.
unfoldable pub last_status : ℕ → List (ℕ × QueueItem) → Option QueueStatus
last_status k [] = none
last_status k ((l, i) ∷ fs) =
    let rest = last_status k fs in if i.item_id == k then some i.status else rest

-- The status of an item that the queue still holds.
abbrev pub is_live : QueueStatus → Bool
is_live queued = true
is_live generating = true
is_live completed = false
is_live failed = false

-- An item is queued when it appears, starts from there, and ends once, started or not.
abbrev pub may_follow : Option QueueStatus → QueueStatus → Bool
may_follow none new = is_queued new
may_follow (some old) queued = false
may_follow (some old) generating = is_queued old
may_follow (some old) completed = is_live old
may_follow (some old) failed = is_live old

-- Every frame shows a transition that may follow the frames before it.
abbrev pub IsHistory : List (ℕ × QueueItem) → Type 0
IsHistory [] = Unit
IsHistory (f ∷ fs) = (may_follow (last_status f.1.item_id fs) f.1.status ≡ true) × IsHistory fs

-- Each item that is held has its status in its last frame.
abbrev pub IsShown : Dict ℕ QueueItem → List (ℕ × QueueItem) → Type 0
IsShown items frames =
    (k : ℕ) (i : QueueItem) → get k items ≡ some i → last_status k frames ≡ some i.status

abbrev pub IsHeld : ℕ → Dict ℕ QueueItem → Type 0
IsHeld next items =
    (k : ℕ) (i : QueueItem)
    → get k items ≡ some i
    → (i.item_id ≡ k) × (k < next) × (is_live i.status ≡ true)

abbrev pub IsFresh : ℕ → List (ℕ × QueueItem) → Type 0
IsFresh next frames = (k : ℕ) → next ≤ k → last_status k frames ≡ none

pub record Watch (next : ℕ) (items : Dict ℕ QueueItem) (frames : List (ℕ × QueueItem))
    : Type 0 where
  pub history : IsHistory frames
  pub shown : IsShown items frames
  pub held : IsHeld next items
  pub fresh : IsFresh next frames

last_status-here :
    (l : ℕ) (i : QueueItem) (fs : List (ℕ × QueueItem))
    → last_status i.item_id ((l, i) ∷ fs) ≡ some i.status
unfolding last_status
last_status-here l i fs = ground arith

last_status-other :
    (k l : ℕ) (i : QueueItem) (fs : List (ℕ × QueueItem))
    → (i.item_id == k) ≡ false
    → last_status k ((l, i) ∷ fs) ≡ last_status k fs
unfolding last_status
last_status-other k l i fs h = ground arith

put_cases :
    (j k : ℕ) (v w : QueueItem) (d : Dict ℕ QueueItem)
    → get k (put j v d) ≡ some w
    → ((j ≡ k) × (v ≡ w)) ⊎ (((j == k) ≡ false) × (get k d ≡ some w))
put_cases j k v w d h =
    let e : get k (put j v d) ≡ (if k ≡? j then some v else get k d) = get-put j k v d in
    elim (Bool-cases (k ≡? j)) [
      | inl same ↦ inl (sym (eq_of_≡? k j same), ground arith)
      | inr other ↦ inr (ground (arith, other), ground arith)
    ]

pub pop_cases :
    (j k : ℕ) (w : QueueItem) (d : Dict ℕ QueueItem)
    → get k (pop j d) ≡ some w
    → ((j == k) ≡ false) × (get k d ≡ some w)
pop_cases j k w d h =
    let e : get k (pop j d) ≡ (if k ≡? j then none else get k d) = get-pop j k d in
    elim (Bool-cases (k ≡? j)) [
      | inl same ↦ absurd (ground arith)
      | inr other ↦ (ground (arith, other), ground arith)
    ]

module _ (next : ℕ) (items : Dict ℕ QueueItem) (frames : List (ℕ × QueueItem)) (l : ℕ)
    (i : QueueItem) where
  after-IsFresh :
      (later : ℕ)
      → next ≤ later
      → i.item_id < later
      → IsFresh next frames
      → IsFresh later ((l, i) ∷ frames)
  after-IsFresh later h h' w k e = last_status-other k l i frames (ground arith) ∙ w k (omega arith)

  -- A frame about an item that is held from now on.
  pub keep_put :
      (later : ℕ)
      → next ≤ later
      → i.item_id < later
      → is_live i.status ≡ true
      → may_follow (last_status i.item_id frames) i.status ≡ true
      → Watch next items frames
      → Watch later (put i.item_id i items) ((l, i) ∷ frames)
  keep_put later h h' live m w = record {
    history = (m, w.history);
    shown = λ k j e. elim (put_cases i.item_id k i j items e) [
      | inl (same, v) ↦
          subst (λ n. last_status n ((l, i) ∷ frames) ≡ some j.status) same
            (last_status-here l i frames ∙ ap (λ (x : QueueItem). some x.status) v)
      | inr (other, e') ↦ last_status-other k l i frames other ∙ w.shown k j e'
    ];
    held = λ k j e. elim (put_cases i.item_id k i j items e) [
      | inl (same, v) ↦
          subst (λ (x : QueueItem). (x.item_id ≡ k) × (k < later) × (is_live x.status ≡ true)) v
            (same, rw (← same) h', live)
      | inr (other, e') ↦ let (a, b, c) = w.held k j e' in (a, omega (arith, h, b), c)
    ];
    fresh = after-IsFresh later h h' w.fresh;
  }

  pub keep_pop :
      i.item_id < next
      → may_follow (last_status i.item_id frames) i.status ≡ true
      → Watch next items frames
      → Watch next (pop i.item_id items) ((l, i) ∷ frames)
  keep_pop h m w = record {
    history = (m, w.history);
    shown = λ k j e.
        let (other, e') = pop_cases i.item_id k j items e in
        last_status-other k l i frames other ∙ w.shown k j e';
    held = λ k j e. w.held k j (pop_cases i.item_id k j items e).1;
    fresh = after-IsFresh next (omega arith) h w.fresh;
  }
