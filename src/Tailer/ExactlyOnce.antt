-- ===== src/Tailer/ExactlyOnce.antt =====
-- src/chronicler/tailer/watcher.py: a growing file is read line by line, each line once.
use ck3_llm_chronicler.Base.{
  ℕ, ◌+◌, Text, List, [], ◌∷◌, ◌++◌, append_assoc, append-nil, map, some, ◌==◌, ==_iff, length, ◌≡◌,
  ◌∙◌, sym, ap, ap₂, refl, inl, inr, Bool-cases, flat_map,
}
use ck3_llm_chronicler.Tailer.Envelope.{split_at, cons_first}
use ck3_llm_chronicler.Tailer.Watcher.{
  Bytes, TailedLine, line_break, line_text, read_loop, read_new_lines,
}
use ck3_llm_chronicler.Tailer.Reading.{read_loop-append, resumed}

-- All but the last item.
abbrev pub init : {A : Type 0} → List A → List A
init [] = []
init (x ∷ []) = []
init (x ∷ y ∷ ys) = x ∷ init (y ∷ ys)

abbrev prepend : Bytes → List Bytes → List Bytes
prepend line [] = []
prepend line (s ∷ rest) = (line ++ s) ∷ rest

split_shape : (xs : Bytes) → (s : Bytes) × (rest : List Bytes) × (split_at line_break xs ≡ s ∷ rest)
unfolding split_at
split_shape [] = ([], [], refl)
split_shape (b ∷ xs) =
    let (s, rest, shape) = split_shape xs in
    elim (Bool-cases (b == line_break)) [
      | inl e ↦ ([], s ∷ rest, rw e (ap (λ (l : List Bytes). [] ∷ l) shape))
      | inr e ↦ (b ∷ s, rest, rw e (ap (cons_first b) shape))
    ]

module _ (decode : Bytes → Text) where
  -- The lines that the loop reads are what the line breaks separate, but for the last part.
  loop_lines :
      (o : ℕ) (line xs : Bytes)
      → map (λ (x : TailedLine). x.text) (read_loop decode o line xs).0
        ≡ map
            (λ l. line_text decode (l ++ (line_break ∷ [])))
            (init (prepend line (split_at line_break xs)))
  unfolding read_loop split_at
  loop_lines o line [] = refl
  loop_lines o line (b ∷ xs) =
      let (s, rest, shape) = split_shape xs in
      elim (Bool-cases (b == line_break)) [
        | inl e ↦
            let same : b ≡ line_break = (==_iff b line_break).0 e in
            let lines : List Bytes → List Text =
              λ l. map (λ k. line_text decode (k ++ (line_break ∷ []))) l in
            let ih = loop_lines (o + length (line ++ (b ∷ []))) [] xs in
            let rest_lines = ih ∙ ap (λ (l : List Bytes). lines (init (prepend [] l))) shape in
            rw e (
              rw shape (
                rw (append-nil line)
                  (ap₂ ◌∷◌ (ap (λ (k : ℕ). line_text decode (line ++ (k ∷ []))) same) rest_lines)))
        | inr e ↦
            let ih = loop_lines o (line ++ (b ∷ [])) xs in
            rw e (ih ∙ rw shape (rw (append_assoc line (b ∷ []) s) refl))
      ]

  whole_lines :
      (xs : Bytes)
      → map (λ (x : TailedLine). x.text) (read_loop decode 0 [] xs).0
        ≡ map (λ l. line_text decode (l ++ (line_break ∷ []))) (init (split_at line_break xs))
  whole_lines xs = let (s, rest, shape) = split_shape xs in loop_lines 0 [] xs ∙ rw shape refl

  -- A reader of a file that grows: after each chunk that is written, one read from the offset kept.
  unfoldable pub watch : Bytes → ℕ → List Bytes → List TailedLine × ℕ
  unfolding read_new_lines
  watch written offset [] = ([], offset)
  watch written offset (chunk ∷ chunks) =
      let r = read_new_lines decode offset (some (written ++ chunk)) in
      let rest = watch (written ++ chunk) r.1 chunks in (r.0 ++ rest.0, rest.1)

  step :
      (c chunk : Bytes)
      → let first = read_loop decode 0 [] c in
        let r = read_new_lines decode first.1 (some (c ++ chunk)) in
        (first.0 ++ r.0, r.1) ≡ read_loop decode 0 [] (c ++ chunk)
  step c chunk =
      let first = read_loop decode 0 [] c in
      ap (λ (r : List TailedLine × ℕ). (first.0 ++ r.0, r.1)) (resumed decode c chunk)
      ∙ sym (read_loop-append decode 0 [] c chunk)

  watched_from :
      (c : Bytes) (chunks : List Bytes)
      → let first = read_loop decode 0 [] c in
        let rest = watch c first.1 chunks in
        (first.0 ++ rest.0, rest.1) ≡ read_loop decode 0 [] (c ++ flat_map (λ k. k) chunks)
  unfolding watch
  watched_from c [] = rw (append-nil c) (rw (append-nil (read_loop decode 0 [] c).0) refl)
  watched_from c (chunk ∷ chunks) =
      let first = read_loop decode 0 [] c in
      let r = read_new_lines decode first.1 (some (c ++ chunk)) in
      let next : Bytes = c ++ chunk in
      let more : Bytes = flat_map (λ (k : Bytes). k) chunks in
      let ends = watch next r.1 chunks in
      let go : List TailedLine × ℕ → List TailedLine × ℕ =
        λ q. (q.0 ++ (watch next q.1 chunks).0, (watch next q.1 chunks).1) in
      ap (λ (l : List TailedLine). (l, ends.1)) (sym (append_assoc first.0 r.0 ends.0))
      ∙ (ap go (step c chunk)
          ∙ (watched_from next chunks ∙ ap (read_loop decode 0 []) (append_assoc c chunk more)))

  -- Whatever parts a file is written in, with a read after each, the lines that are read are those of
  -- the whole file: each line that is ended by a line break once, in order, whole, and no other; and
  -- the offset kept is the one behind the last line break.
  pub watch_lem :
      (chunks : List Bytes)
      → let whole = flat_map (λ (k : Bytes). k) chunks in
        let r = watch [] 0 chunks in
        (map (λ (x : TailedLine). x.text) r.0
          ≡ map (λ l. line_text decode (l ++ (line_break ∷ []))) (init (split_at line_break whole)))
        × (r ≡ read_loop decode 0 [] whole)
  unfolding read_loop
  watch_lem chunks =
      let whole = flat_map (λ (k : Bytes). k) chunks in
      let read : watch [] 0 chunks ≡ read_loop decode 0 [] whole = watched_from [] chunks in
      (ap (λ (r : List TailedLine × ℕ). map (λ x. x.text) r.0) read ∙ whole_lines whole, read)
