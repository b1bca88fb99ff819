-- ===== src/Bus/Delivery.antt =====
-- src/chronicler/api/events.py: the delivery of one event.
use ck3_llm_chronicler.Base.{
  ℕ, zero, suc, ◌+◌, ◌-◌, ◌≤◌, Bool, true, false, not, ◌&&◌, List, [], ◌∷◌, ◌++◌, some,
  if◌then◌else◌, ◌==◌, leb, ◌≡?◌, nat_order, text_order, Dict, get, get-put, length, length-append,
  drop, ◌≡◌, ◌∙◌, sym, refl, arith, inl, inr, Bool-cases, Option-cases, eq_of_≡?, ≡?_refl, subst,
}
use ck3_llm_chronicler.Bus.{enqueue_event, put_nowait, deliver, deliver_all}

-- The last `n` items, or all where `n` is zero.
abbrev pub keep_last : {E : Type 0} → ℕ → List E → List E
keep_last n xs = if n == 0 then xs else drop (length xs - n) xs

-- How often the queue stands in a list.
abbrev pub times : ℕ → List ℕ → ℕ
times q [] = 0
times q (k ∷ ks) = (if q ≡? k then 1 else 0) + times q ks

module _ {E : Type 0} where
  length-drop_all : (n : ℕ) (xs : List E) → length (drop n xs) ≡ length xs - n
  length-drop_all zero xs = omega arith
  length-drop_all (suc n) [] = omega arith
  length-drop_all (suc n) (x ∷ xs) = omega (arith, length-drop_all n xs)

  pub length-drop_one : (q : List E) → length (drop 1 q) ≡ length q - 1
  length-drop_one [] = omega arith
  length-drop_one (x ∷ q) = omega arith

  drop_one-append :
      (q : List E) (event : E)
      → 1 ≤ length q
      → drop 1 (q ++ (event ∷ [])) ≡ drop 1 q ++ (event ∷ [])
  drop_one-append [] event h = absurd (omega arith)
  drop_one-append (x ∷ q) event h = refl

  abbrev is_full : ℕ → List E → Bool
  is_full n q = not (n == 0) && leb n (length q)

  enqueue_event-room :
      (n : ℕ) (event : E) (q : List E)
      → is_full n q ≡ false
      → enqueue_event n event q ≡ q ++ (event ∷ [])
  unfolding enqueue_event
  enqueue_event-room n event q h = rw (h, enqueue_event, put_nowait) refl

  enqueue_event-full :
      (n : ℕ) (event : E) (q : List E)
      → is_full n q ≡ true
      → is_full n (drop 1 q) ≡ false
      → enqueue_event n event q ≡ drop 1 q ++ (event ∷ [])
  unfolding enqueue_event
  enqueue_event-full n event q h k = rw (h, enqueue_event, put_nowait) (rw (k, put_nowait) refl)

  -- A queue that fits its size keeps the last events.
  pub enqueue_event-keep_last :
      (n : ℕ) (event : E) (q : List E)
      → ((n == 0) ≡ false → length q ≤ n)
      → enqueue_event n event q ≡ keep_last n (q ++ (event ∷ []))
  enqueue_event-keep_last n event q h =
      let l : length (q ++ (event ∷ [])) ≡ length q + 1 = length-append q (event ∷ []) in
      elim (Bool-cases (n == 0)) [
        | inl z ↦ enqueue_event-room n event q (rw z refl) ∙ rw z refl
        | inr z ↦ elim (Bool-cases (leb n (length q))) [
          | inl full ↦
              let same : length (q ++ (event ∷ [])) - n ≡ 1 = ground (arith, l, h z) in
              let room : is_full n (drop 1 q) ≡ false = ground (arith, length-drop_one q, h z) in
              enqueue_event-full n event q (rw z (rw full refl)) room
              ∙ rw z (rw same (sym (drop_one-append q event (ground (arith, full, z)))))
          | inr free ↦
              let none_lost : length (q ++ (event ∷ [])) - n ≡ 0 = ground (arith, l) in
              enqueue_event-room n event q (rw z (rw free refl)) ∙ rw z (rw none_lost refl)
        ]
      ]

  pub length-keep_last : (n : ℕ) (xs : List E) → (n == 0) ≡ false → length (keep_last n xs) ≤ n
  length-keep_last n xs z = rw z (omega (arith, length-drop_all (length xs - n) xs))

  deliver-other :
      (n q k : ℕ) (event : E) (d : Dict ℕ (List E))
      → (q ≡? k) ≡ false
      → get q (deliver n k event d) ≡ get q d
  deliver-other n q k event d h = elim (Option-cases (get k d)) [
    | inl e ↦ rw (e, deliver) refl
    | inr (events, e) ↦
        rw (e, deliver) (rw (get-put k q (enqueue_event n event events) d) (rw h refl))
  ]

  pub deliver_all-other :
      (n q : ℕ) (event : E) (qids : List ℕ) (d : Dict ℕ (List E))
      → times q qids ≡ 0
      → get q (deliver_all n qids event d) ≡ get q d
  unfolding deliver_all
  deliver_all-other n q event [] d h = refl
  deliver_all-other n q event (k ∷ ks) d h =
      deliver_all-other n q event ks (deliver n k event d) (ground arith)
      ∙ deliver-other n q k event d (ground arith)

  deliver-own :
      (n q : ℕ) (event : E) (events : List E) (d : Dict ℕ (List E))
      → get q d ≡ some events
      → get q (deliver n q event d) ≡ some (enqueue_event n event events)
  deliver-own n q event events d h =
      rw (h, deliver) (rw (get-put q q (enqueue_event n event events) d) (rw (≡?_refl q) refl))

  -- One delivery, where the queue stands once in the list.
  pub deliver_all-own :
      (n q : ℕ) (event : E) (qids : List ℕ) (events : List E) (d : Dict ℕ (List E))
      → times q qids ≡ 1
      → get q d ≡ some events
      → get q (deliver_all n qids event d) ≡ some (enqueue_event n event events)
  unfolding deliver_all
  deliver_all-own n q event [] events d h k = absurd (omega arith)
  deliver_all-own n q event (j ∷ js) events d h k = elim (Bool-cases (q ≡? j)) [
    | inl e ↦
        let same : q ≡ j = eq_of_≡? q j e in
        let once : times q js ≡ 0 = ground arith in
        deliver_all-other n q event js (deliver n j event d) once
        ∙ subst (λ (x : ℕ). get q (deliver n x event d) ≡ some (enqueue_event n event events)) same
            (deliver-own n q event events d k)
    | inr e ↦
        deliver_all-own n q event js events (deliver n j event d) (ground arith)
          (deliver-other n q j event d e ∙ k)
  ]
