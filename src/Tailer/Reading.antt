-- ===== src/Tailer/Reading.antt =====
-- src/chronicler/tailer/watcher.py: what the loop of reads gives, and where a read resumes.
use ck3_llm_chronicler.Base.{
  ℕ, ◌+◌, Text, Bool, true, false, List, [], ◌∷◌, ◌++◌, append_assoc, append-nil, some,
  if◌then◌else◌, ltb, ◌==◌, ==_iff, length, length-append, drop, All, All-append, ◌≡◌, ◌∙◌, sym, ap,
  refl, arith, inl, inr, Bool-cases,
}
use ck3_llm_chronicler.Tailer.Watcher.{
  Bytes, TailedLine, line_break, line_text, read_loop, read_new_lines,
}

-- What stands behind the last line break, where `line` stands before the bytes.
unfoldable pub unended : Bytes → Bytes → Bytes
unended line [] = line
unended line (b ∷ rest) = unended (if b == line_break then [] else line ++ (b ∷ [])) rest

abbrev NoBreak : Bytes → Type 0
NoBreak bytes = All (λ (b : ℕ). (b == line_break) ≡ false) bytes

grown-NoBreak :
    (b : ℕ) (line : Bytes)
    → NoBreak line
    → NoBreak (if b == line_break then [] else line ++ (b ∷ []))
grown-NoBreak b line h = elim (Bool-cases (b == line_break)) [
  | inl e ↦ rw e tt
  | inr e ↦ rw e (All-append _ line (b ∷ []) h (e, tt))
]

unended-NoBreak : (line xs : Bytes) → NoBreak line → NoBreak (unended line xs)
unfolding unended
unended-NoBreak line [] h = h
unended-NoBreak line (b ∷ xs) h =
    unended-NoBreak (if b == line_break then [] else line ++ (b ∷ [])) xs (grown-NoBreak b line h)

unended_whole : (line u : Bytes) → NoBreak u → unended line u ≡ line ++ u
unfolding unended
unended_whole line [] h = sym (append-nil line)
unended_whole line (b ∷ u) (e, h) =
    rw e (unended_whole (line ++ (b ∷ [])) u h ∙ append_assoc line (b ∷ []) u)

drop-append : (xs ys : Bytes) → drop (length xs) (xs ++ ys) ≡ ys
drop-append [] ys = refl
drop-append (x ∷ xs) ys = drop-append xs ys

prepended :
    (stop : Bool) (x : TailedLine) (xs ys : List TailedLine)
    → (if stop then x ∷ (xs ++ ys) else xs ++ ys) ≡ (if stop then x ∷ xs else xs) ++ ys
prepended true x xs ys = refl
prepended false x xs ys = refl

module _ (decode : Bytes → Text) where
  -- Reading on gives what reading in two parts gives.
  pub read_loop-append :
      (o : ℕ) (line xs ys : Bytes)
      → read_loop decode o line (xs ++ ys) ≡ (
          let first = read_loop decode o line xs in
          let second = read_loop decode first.1 (unended line xs) ys in
          (first.0 ++ second.0, second.1))
  unfolding read_loop unended
  read_loop-append o line [] ys = refl
  read_loop-append o line (b ∷ xs) ys =
      let stop : Bool = b == line_break in
      let next : ℕ = if stop then o + length (line ++ (b ∷ [])) else o in
      let grown : Bytes = if stop then [] else line ++ (b ∷ []) in
      let x : TailedLine = record { text = line_text decode (line ++ (b ∷ [])); offset = next } in
      let first = read_loop decode next grown xs in
      let second = read_loop decode first.1 (unended grown xs) ys in
      ap (λ (r : List TailedLine × ℕ). ((if stop then x ∷ r.0 else r.0), r.1))
        (read_loop-append next grown xs ys)
      ∙ ap (λ (l : List TailedLine). (l, second.1)) (prepended stop x first.0 second.0)

  -- Without a line break nothing is read.
  read_loop-unended : (o : ℕ) (line u : Bytes) → NoBreak u → read_loop decode o line u ≡ ([], o)
  unfolding read_loop
  read_loop-unended o line [] h = refl
  read_loop-unended o line (b ∷ u) (e, h) = rw e (read_loop-unended o (line ++ (b ∷ [])) u h)

  -- A part of a line is read again from its start.
  read_loop-again :
      (o : ℕ) (u ys : Bytes) → NoBreak u → read_loop decode o [] (u ++ ys) ≡ read_loop decode o u ys
  read_loop-again o u ys h =
      read_loop-append o [] u ys ∙ rw (read_loop-unended o [] u h) (rw (unended_whole [] u h) refl)

  -- The offset stands behind the last line break.
  read_loop-position :
      (o : ℕ) (line xs : Bytes)
      → (before : Bytes) × (line ++ xs ≡ before ++ unended line xs)
        × ((read_loop decode o line xs).1 ≡ o + length before)
  unfolding read_loop unended
  read_loop-position o line [] = ([], append-nil line, omega arith)
  read_loop-position o line (b ∷ xs) = elim (Bool-cases (b == line_break)) [
    | inl e ↦ rw e (
        let (before, whole, at) = read_loop-position (o + length (line ++ (b ∷ []))) [] xs in
        (
          line ++ (b ∷ before),
          ap (λ (l : Bytes). line ++ (b ∷ l)) whole
              ∙ sym (append_assoc line (b ∷ before) (unended [] xs)),
          omega (arith, at, length-append line (b ∷ []), length-append line (b ∷ before)),
        ))
    | inr e ↦ rw e (
        let (before, whole, at) = read_loop-position o (line ++ (b ∷ [])) xs in
        (before, sym (append_assoc line (b ∷ []) xs) ∙ whole, at))
  ]

  nothing_new : (o : ℕ) (u ys : Bytes) → length (u ++ ys) ≡ 0 → ([], o) ≡ read_loop decode o u ys
  unfolding read_loop
  nothing_new o [] [] h = refl
  nothing_new o [] (y ∷ ys) h = absurd (omega (arith, h))
  nothing_new o (x ∷ u) ys h = absurd (omega (arith, h))

  resumed_at :
      (before u ys : Bytes)
      → NoBreak u
      → read_new_lines decode (length before) (some (before ++ (u ++ ys)))
        ≡ read_loop decode (length before) u ys
  unfolding read_new_lines
  resumed_at before u ys h =
      let o : ℕ = length before in
      let l : length (before ++ (u ++ ys)) ≡ o + length (u ++ ys) =
        length-append before (u ++ ys) in
      let grown : ltb (length (before ++ (u ++ ys))) o ≡ false = ground (arith, l) in
      rw grown (elim (Bool-cases (length (before ++ (u ++ ys)) == o)) [
        | inl e ↦ rw e (
            nothing_new o u ys
              (let w = (==_iff (length (before ++ (u ++ ys))) o).0 e in omega (arith, l, w)))
        | inr e ↦ rw e (rw (drop-append before (u ++ ys)) (read_loop-again o u ys h))
      ])

  -- A read that starts behind the last line break of what has been read, when more has been written.
  pub resumed :
      (c ys : Bytes)
      → let first = read_loop decode 0 [] c in
        read_new_lines decode first.1 (some (c ++ ys)) ≡ read_loop decode first.1 (unended [] c) ys
  resumed c ys =
      let (before, whole, at) = read_loop-position 0 [] c in
      let u = unended [] c in
      let o : (read_loop decode 0 [] c).1 ≡ length before = at ∙ omega arith in
      let text : c ++ ys ≡ before ++ (u ++ ys) =
        ap (λ (l : Bytes). l ++ ys) whole ∙ append_assoc before u ys in
      rw o (
        ap (λ (l : Bytes). read_new_lines decode (length before) (some l)) text
        ∙ resumed_at before u ys (unended-NoBreak [] c tt))
