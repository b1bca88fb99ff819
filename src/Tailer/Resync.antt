-- ===== src/Tailer/Resync.antt =====
-- src/chronicler/tailer/parser.py: a tagged line makes the parser forget.
use ck3_llm_chronicler.Base.{
  Text, List, [], ◌∷◌, ◌++◌, append_assoc, Option, none, some, String, ◌≡◌, refl, inl, inr, ap,
  arith, sym, ◌∙◌,
}
use ck3_llm_chronicler.Tailer.Scan.{chronicler_body}
use ck3_llm_chronicler.Tailer.Envelope.{Envelope, build_envelope}
use ck3_llm_chronicler.Tailer.Parser.{Pending, Validated, ParseResult, finalised}
use ck3_llm_chronicler.Tailer.Feed.{feed, tag_line}
use ck3_llm_chronicler.Tailer.Steps.{Line, run, feed-tagged, stripped_line}
use ck3_llm_chronicler.Tailer.Counts.{Built-cases}

module _ {E : Type 0} (validate : Envelope → Validated E) where
  -- What comes behind results that were given before.
  abbrev pub behind :
      List (ParseResult E)
      → List (ParseResult E) × Option Pending
      → List (ParseResult E) × Option Pending
  behind before r = (before ++ r.0, r.1)

  tag_line-forgets :
      (now : String) (s body : Text) (p : Option Pending)
      → tag_line validate now s body p
        ≡ behind (finalised validate p) (tag_line validate now s body none)
  unfolding tag_line
  tag_line-forgets now s body p = elim (Built-cases (build_envelope body)) [
    | inl (e, h) ↦ rw (h, tag_line) (grind arith)
    | inr (e, h) ↦ rw (h, tag_line) (grind arith)
  ]

  feed-forgets :
      (now : String) (line body : Text) (p : Option Pending)
      → chronicler_body (stripped_line line) ≡ some body
      → feed validate now line p ≡ behind (finalised validate p) (feed validate now line none)
  feed-forgets now line body p h = rw (feed-tagged validate now line body p h) (
      rw (feed-tagged validate now line body none h)
        (tag_line-forgets now (stripped_line line) body p))

  pub cut :
      (ys : List Line) (now : String) (line body : Text) (p : Option Pending)
      → chronicler_body (stripped_line line) ≡ some body
      → run validate ((now, line) ∷ ys) p
        ≡ behind (finalised validate p) (run validate ((now, line) ∷ ys) none)
  unfolding run
  cut ys now line body p h =
      let fresh = feed validate now line none in
      rw (feed-forgets now line body p h) (
        ap (λ (r : List (ParseResult E)). (r, (run validate ys fresh.1).1))
          (append_assoc (finalised validate p) fresh.0 (run validate ys fresh.1).0))

  run-append :
      (xs ys : List Line) (p : Option Pending)
      → run validate (xs ++ ys) p
        ≡ behind (run validate xs p).0 (run validate ys (run validate xs p).1)
  unfolding run
  run-append [] ys p = refl
  run-append ((now, line) ∷ xs) ys p =
      let next = feed validate now line p in
      let rest = run validate xs next.1 in
      let step : behind next.0 (run validate (xs ++ ys) next.1)
          ≡ behind next.0 (behind rest.0 (run validate ys rest.1)) =
        ap (behind next.0) (run-append xs ys next.1) in
      let joined : behind next.0 (behind rest.0 (run validate ys rest.1))
          ≡ behind (next.0 ++ rest.0) (run validate ys rest.1) =
        ap (λ (r : List (ParseResult E)). (r, (run validate ys rest.1).1))
          (sym (append_assoc next.0 rest.0 (run validate ys rest.1).0)) in
      step ∙ joined

  -- A line that carries the tag cuts a log in two: whatever was read before it, the results are those
  -- of the lines before, the end of the event that was pending, and what a new parser gives from that
  -- line on; and the parser ends in the same state as the new one.
  pub run-resync :
      (xs ys : List Line) (now : String) (line body : Text) (p : Option Pending)
      → chronicler_body (stripped_line line) ≡ some body
      → run validate (xs ++ ((now, line) ∷ ys)) p ≡ (
          let before = run validate xs p in
          let fresh = run validate ((now, line) ∷ ys) none in
          (before.0 ++ (finalised validate before.1 ++ fresh.0), fresh.1))
  unfolding run
  run-resync xs ys now line body p h =
      let before = run validate xs p in
      run-append xs ((now, line) ∷ ys) p ∙ ap (behind before.0) (cut ys now line body before.1 h)
