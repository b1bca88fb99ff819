-- ===== src/Tailer/Counts.antt =====
-- src/chronicler/tailer/parser.py: as many results as tagged lines.
use ck3_llm_chronicler.Base.{
  ℕ, ◌+◌, Text, List, [], ◌∷◌, ◌++◌, Option, none, some, ◌⊎◌, length, length-append, String, ◌≡◌,
  refl, arith, inl, inr, Option-cases,
}
use ck3_llm_chronicler.Tailer.Scan.{chronicler_body}
use ck3_llm_chronicler.Tailer.Envelope.{Envelope, Built, built, refused, build_envelope}
use ck3_llm_chronicler.Tailer.Parser.{Pending, Validated, ParseResult, finalised}
use ck3_llm_chronicler.Tailer.Feed.{feed, flush, tag_line, other_line, counted_line}
use ck3_llm_chronicler.Tailer.Steps.{
  Line, ScopeStep, scope_line-step, feed-untagged, feed-tagged, run, stripped_line,
}

abbrev pub held : Option Pending → ℕ
held none = 0
held (some p) = 1

abbrev pub tag_count : Text → ℕ
tag_count line = elim (chronicler_body (stripped_line line)) [ none ↦ 0 | some body ↦ 1 ]

abbrev pub tagged_lines : List Line → ℕ
tagged_lines [] = 0
tagged_lines ((now, line) ∷ lines) = tag_count line + tagged_lines lines

pub Built-cases : (b : Built) → ((e : Envelope) × (b ≡ built e)) ⊎ ((e : _) × (b ≡ refused e))
Built-cases (built e) = inl (e, refl)
Built-cases (refused e) = inr (e, refl)

module _ {E : Type 0} (validate : Envelope → Validated E) where
  length-finalised : (p : Option Pending) → length (finalised validate p) ≡ held p
  length-finalised none = refl
  length-finalised (some p) = refl

  step-count :
      {s : Text} {p : Pending} (r : List (ParseResult E) × Option Pending)
      → ScopeStep validate s p r
      → length r.0 + held r.1 ≡ 1
  step-count _ (ScopeStep.times_out e) = refl
  step-count _ (ScopeStep.ends e) = refl
  step-count _ (ScopeStep.waits e) = refl
  step-count _ (ScopeStep.starts id rest t e g) = refl
  step-count _ (ScopeStep.reads e) = refl

  other_line-count :
      (s : Text) (p : Option Pending)
      → length (other_line validate s p).0 + held (other_line validate s p).1 ≡ held p
  other_line-count s none = refl
  other_line-count s (some p) = step-count _ (scope_line-step validate s (counted_line s p))

  tag_line-count :
      (now : String) (s body : Text) (p : Option Pending)
      → length (tag_line validate now s body p).0 + held (tag_line validate now s body p).1
        ≡ held p + 1
  unfolding tag_line
  tag_line-count now s body p = elim (Built-cases (build_envelope body)) [
    | inl (e, h) ↦ rw (h, tag_line) (omega (arith, length-finalised p))
    | inr (e, h) ↦
        rw (h, tag_line) (omega (arith, length-finalised p, length-append (finalised validate p) _))
  ]

  feed-count :
      (now : String) (line : Text) (p : Option Pending)
      → length (feed validate now line p).0 + held (feed validate now line p).1
        ≡ held p + tag_count line
  feed-count now line p = elim (Option-cases (chronicler_body (stripped_line line))) [
    | inl e ↦
        rw (feed-untagged validate now line p e)
          (rw (e, tag_count) (omega (arith, other_line-count (stripped_line line) p)))
    | inr (body, e) ↦
        rw (feed-tagged validate now line body p e)
          (rw (e, tag_count) (tag_line-count now (stripped_line line) body p))
  ]

  -- Over any lines, the results given and the event still pending are exactly as many as the lines
  -- that carry the tag and the event that was pending before.
  pub run-count :
      (lines : List Line) (p : Option Pending)
      → length (run validate lines p).0 + held (run validate lines p).1
        ≡ held p + tagged_lines lines
  unfolding run
  run-count [] p = omega arith
  run-count ((now, line) ∷ lines) p = omega (
    arith,
    feed-count now line p,
    run-count lines (feed validate now line p).1,
    length-append (feed validate now line p).0 _,
  )

  flush-count : (p : Option Pending) → length (flush validate p).0 ≡ held p
  unfolding flush
  flush-count none = refl
  flush-count (some p) = elim (Option-cases p.envelope.c) [
    | inl e ↦ rw e refl
    | inr (id, e) ↦ rw e refl
  ]

  -- A whole log, fed line by line to a new parser and then flushed, yields exactly one result for each
  -- line that carries the tag, and none for the others; nothing is pending at the end.
  pub log-count :
      (lines : List Line)
      → let after = run validate lines none in
        length (after.0 ++ (flush validate after.1).0) ≡ tagged_lines lines
  log-count lines = omega (
    arith,
    run-count lines none,
    flush-count (run validate lines none).1,
    length-append (run validate lines none).0 (flush validate (run validate lines none).1).0,
  )
