-- ===== src/LogBuffer/Polling.antt =====
-- src/chronicler/api/log_buffer.py: a reader that polls in time gets every envelope once.
use ck3_llm_chronicler.Base.{
  ℕ, zero, suc, ◌+◌, ◌-◌, ◌≤◌, ◌<◌, true, false, List, [], ◌∷◌, ◌++◌, append_assoc, append-nil, ltb,
  filter, length, length-append, drop, All, All-append, flat_map, ◌≡◌, ◌∙◌, sym, ap, ap₂, subst,
  refl, arith,
}
use ck3_llm_chronicler.LogBuffer.{LogEnvelope, LogBuffer, new_buffer, push_bounded, emit, since}

-- The envelopes as the buffer numbers them.
abbrev pub number : ℕ → List LogEnvelope → List LogEnvelope
number k [] = []
number k (e ∷ es) = record e { seq = k } ∷ number (suc k) es

abbrev pub emit_all : List LogEnvelope → LogBuffer → LogBuffer
emit_all [] s = s
emit_all (e ∷ es) s = emit_all es (emit e s)

number-append :
    (k : ℕ) (xs ys : List LogEnvelope)
    → number k (xs ++ ys) ≡ number k xs ++ number (length xs + k) ys
number-append k [] ys = ap (λ (n : ℕ). number n ys) (let e : k ≡ 0 + k = omega arith in e)
number-append k (x ∷ xs) ys =
    ap (λ (l : List LogEnvelope). record x { seq = k } ∷ l)
      (number-append (suc k) xs ys
        ∙ ap (λ (n : ℕ). number (suc k) xs ++ number n ys)
            (let e : length xs + suc k ≡ suc (length xs) + k = omega arith in e))

length-number : (k : ℕ) (xs : List LogEnvelope) → length (number k xs) ≡ length xs
length-number k [] = refl
length-number k (x ∷ xs) = omega (arith, length-number (suc k) xs)

-- Seen by a reader whose cursor stands at `c`.
abbrev AllSeen : ℕ → List LogEnvelope → Type 0
AllSeen c es = All (λ (e : LogEnvelope). ltb c e.seq ≡ false) es

number-news :
    (c k : ℕ) (xs : List LogEnvelope)
    → c < k
    → filter (λ e. ltb c e.seq) (number k xs) ≡ number k xs
number-news c k [] h = refl
number-news c k (x ∷ xs) h =
    let new : ltb c k ≡ true = ground arith in
    rw new (
      ap (λ (l : List LogEnvelope). record x { seq = k } ∷ l)
        (number-news c (suc k) xs (omega arith)))

number-AllSeen : (c k : ℕ) (xs : List LogEnvelope) → length xs + k ≤ suc c → AllSeen c (number k xs)
number-AllSeen c k [] h = tt
number-AllSeen c k (x ∷ xs) h = (ground arith, number-AllSeen c (suc k) xs (omega arith))

seen-filter :
    (c : ℕ) (old news : List LogEnvelope)
    → AllSeen c old
    → filter (λ e. ltb c e.seq) (old ++ news) ≡ filter (λ e. ltb c e.seq) news
seen-filter c [] news h = refl
seen-filter c (x ∷ old) news (s, h) = rw s (seen-filter c old news h)

later-AllSeen : (c d : ℕ) (es : List LogEnvelope) → c ≤ d → AllSeen c es → AllSeen d es
later-AllSeen c d [] h a = tt
later-AllSeen c d (e ∷ es) h (s, a) = (ground (arith, s), later-AllSeen c d es h a)

drop-AllSeen : (c k : ℕ) (es : List LogEnvelope) → AllSeen c es → AllSeen c (drop k es)
drop-AllSeen c zero es a = a
drop-AllSeen c (suc k) [] a = tt
drop-AllSeen c (suc k) (e ∷ es) (s, a) = drop-AllSeen c k es a

drop-append_le :
    (k : ℕ) (xs ys : List LogEnvelope) → k ≤ length xs → drop k (xs ++ ys) ≡ drop k xs ++ ys
drop-append_le zero xs ys h = refl
drop-append_le (suc k) [] ys h = absurd (omega arith)
drop-append_le (suc k) (x ∷ xs) ys h = drop-append_le k xs ys (omega arith)

-- The buffer holds what a reader at `c` has seen, and behind it all that came after.
record HoldsNews (c : ℕ) (news : List LogEnvelope) (s : LogBuffer) : Type 0 where
  old : List LogEnvelope
  buffer : s.buffer ≡ old ++ number (suc c) news
  seen : AllSeen c old
  next : s.next_seq ≡ suc (length news + c)

emit-HoldsNews :
    (c : ℕ) (news : List LogEnvelope) (e : LogEnvelope) (s : LogBuffer)
    → length news < s.maxlen
    → HoldsNews c news s
    → HoldsNews c (news ++ (e ∷ [])) (emit e s)
unfolding emit push_bounded
emit-HoldsNews c news e s h n =
    let numbered : LogEnvelope = record e { seq = s.next_seq } in
    let tail : List LogEnvelope = number (suc c) (news ++ (e ∷ [])) in
    let ends : tail ≡ number (suc c) news ++ (numbered ∷ []) =
      number-append (suc c) news (e ∷ [])
      ∙ ap (λ (k : ℕ). number (suc c) news ++ (record e { seq = k } ∷ []))
          (let q : length news + suc c ≡ s.next_seq = omega (arith, n.next) in q) in
    let whole : s.buffer ++ (numbered ∷ []) ≡ n.old ++ tail =
      ap (λ (l : List LogEnvelope). l ++ (numbered ∷ [])) n.buffer
      ∙ (append_assoc n.old (number (suc c) news) (numbered ∷ [])
          ∙ ap (λ (l : List LogEnvelope). n.old ++ l) (sym ends)) in
    let lost : ℕ = length (n.old ++ tail) - s.maxlen in
    let few : lost ≤ length n.old = omega (
      arith,
      length-append n.old tail,
      length-number (suc c) (news ++ (e ∷ [])),
      length-append news (e ∷ []),
    ) in
    record {
      old = drop lost n.old;
      buffer =
          ap (λ (l : List LogEnvelope). drop (length l - s.maxlen) l) whole
          ∙ drop-append_le lost n.old tail few;
      seen = drop-AllSeen c lost n.old n.seen;
      next = omega (arith, n.next, length-append news (e ∷ []));
    }

emit_all-HoldsNews :
    (c : ℕ) (news es : List LogEnvelope) (s : LogBuffer)
    → length news + length es ≤ s.maxlen
    → HoldsNews c news s
    → HoldsNews c (news ++ es) (emit_all es s)
unfolding emit
emit_all-HoldsNews c news [] s h n =
    subst (λ (l : List LogEnvelope). HoldsNews c l s) (sym (append-nil news)) n
emit_all-HoldsNews c news (e ∷ es) s h n =
    let next =
      emit_all-HoldsNews c (news ++ (e ∷ [])) es (emit e s)
        (omega (arith, h, length-append news (e ∷ [])))
        (emit-HoldsNews c news e s (omega (arith, h)) n) in
    subst (λ (l : List LogEnvelope). HoldsNews c l (emit_all es (emit e s)))
      (append_assoc news (e ∷ []) es) next

emit_all-maxlen : (es : List LogEnvelope) (s : LogBuffer) → (emit_all es s).maxlen ≡ s.maxlen
unfolding emit
emit_all-maxlen [] s = refl
emit_all-maxlen (e ∷ es) s = emit_all-maxlen es (emit e s)

-- A poll gives what came after the last one.
since-news :
    (c : ℕ) (news : List LogEnvelope) (s : LogBuffer)
    → HoldsNews c news s
    → since c s ≡ (number (suc c) news, length news + c)
unfolding since
since-news c news s n =
    ap₂ (λ (x : List LogEnvelope) (y : ℕ). (x, y))
      (ap (λ (l : List LogEnvelope). filter (λ (e : LogEnvelope). ltb c e.seq) l) n.buffer
        ∙ (seen-filter c n.old (number (suc c) news) n.seen
            ∙ number-news c (suc c) news (omega arith)))
      (let e : s.next_seq - 1 ≡ length news + c = omega (arith, n.next) in e)

polled-HoldsNews :
    (c : ℕ) (news : List LogEnvelope) (s : LogBuffer)
    → HoldsNews c news s
    → HoldsNews (length news + c) [] s
polled-HoldsNews c news s n = record {
  old = s.buffer;
  buffer = sym (append-nil s.buffer);
  seen =
      subst (λ (l : List LogEnvelope). AllSeen (length news + c) l) (sym n.buffer)
        (All-append _ n.old (number (suc c) news)
          (later-AllSeen c (length news + c) n.old (omega arith) n.seen)
          (number-AllSeen (length news + c) (suc c) news (omega arith)));
  next = omega (arith, n.next);
}

-- A reader that polls after each batch, with the cursor that the last poll gave.
abbrev pub poll_all : List (List LogEnvelope) → ℕ → LogBuffer → List LogEnvelope
poll_all [] cursor s = []
poll_all (batch ∷ batches) cursor s =
    let later = emit_all batch s in
    let polled = since cursor later in polled.0 ++ poll_all batches polled.1 later

abbrev pub Fits : ℕ → List LogEnvelope → Type 0
Fits n batch = length batch ≤ n

poll_all-number :
    (n c : ℕ) (batches : List (List LogEnvelope)) (s : LogBuffer)
    → s.maxlen ≡ n
    → All (Fits n) batches
    → HoldsNews c [] s
    → poll_all batches c s ≡ number (suc c) (flat_map (λ b. b) batches)
poll_all-number n c [] s m f h = refl
poll_all-number n c (batch ∷ batches) s m (f, fs) h =
    let later = emit_all batch s in
    let news = emit_all-HoldsNews c [] batch s (omega (arith, m, f)) h in
    let rest : List LogEnvelope = flat_map (λ (b : List LogEnvelope). b) batches in
    let ih =
      poll_all-number n (length batch + c) batches later (emit_all-maxlen batch s ∙ m) fs
        (polled-HoldsNews c batch later news) in
    ap (λ (r : List LogEnvelope × ℕ). r.0 ++ poll_all batches r.1 later)
      (since-news c batch later news)
    ∙ (ap (λ (l : List LogEnvelope). number (suc c) batch ++ l) ih
        ∙ (ap (λ (k : ℕ). number (suc c) batch ++ number k rest)
              (let e : suc (length batch + c) ≡ length batch + suc c = omega arith in e)
            ∙ sym (number-append (suc c) batch rest)))

-- A reader that starts with the buffer and polls whenever at most as many records as the buffer holds
-- have come since its last poll gets every record exactly once, in order, with the numbers from one
-- on: no record is lost when the buffer wraps and none comes twice.
pub poll_all_lem :
    (maxlen : ℕ) (batches : List (List LogEnvelope))
    → All (Fits maxlen) batches
    → poll_all batches 0 (new_buffer maxlen) ≡ number 1 (flat_map (λ b. b) batches)
poll_all_lem maxlen batches f =
    poll_all-number maxlen 0 batches (new_buffer maxlen) refl f
      (record { old = []; buffer = refl; seen = tt; next = refl })
