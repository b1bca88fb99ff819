-- ===== src/Tailer/Reported.antt =====
-- src/chronicler/tailer/parser.py: every tagged line is reported in time.
use ck3_llm_chronicler.Base.{
  ℕ, ◌+◌, ◌≤◌, ◌<◌, Text, false, List, [], ◌∷◌, ◌++◌, Option, none, some, leb, length, String, ◌≡◌,
  ◌∙◌, ap, refl, arith, inl, inr, Option-cases,
}
use ck3_llm_chronicler.Tailer.Scan.{chronicler_body}
use ck3_llm_chronicler.Tailer.Envelope.{Envelope, build_envelope}
use ck3_llm_chronicler.Tailer.Parser.{
  Pending, Validated, valid, violation, ParseResult, parsed, failure, ParseError, join_lines, lost,
  report, finalise, finalised,
}
use ck3_llm_chronicler.Tailer.Feed.{feed, tag_line, counted_line}
use ck3_llm_chronicler.Tailer.Steps.{
  Line, ScopeStep, scope_line-step, feed-untagged, feed-tagged, run, stripped_line, dump_line-Keeps,
}
use ck3_llm_chronicler.Tailer.Counts.{Built-cases}
use ck3_llm_chronicler.Tailer.Resync.{cut}

abbrev pub raw_of : {E : Type 0} → ParseResult E → Text
raw_of (parsed e) = e.raw_line
raw_of (failure f) = f.raw_line

abbrev pub clock_of : {E : Type 0} → ParseResult E → String
clock_of (parsed e) = e.wall_clock_at
clock_of (failure f) = f.wall_clock_at

-- The result is about the line `s`, which was fed at `now`: its text begins with that line.
pub record Describes {E : Type 0} (s : Text) (now : String) (r : ParseResult E) : Type 0 where
  pub more : List Text
  pub raw : raw_of r ≡ join_lines (s ∷ more)
  pub clock : clock_of r ≡ now

-- The first of the results is about that line.
pub data Reports {E : Type 0} (s : Text) (now : String) : List (ParseResult E) → Type 0 where
  reports :
      (r : ParseResult E) (rest : List (ParseResult E))
      → Describes s now r
      → Reports s now (r ∷ rest)

-- The pending event is about that line.
record Follows (s : Text) (now : String) (p : Pending) : Type 0 where
  more : List Text
  raw : p.raw_lines ≡ s ∷ more
  clock : p.wall_clock_at ≡ now

module _ {E : Type 0} (validate : Envelope → Validated E) (s : Text) (now : String) where
  lost-Describes :
      (e : ParseError) (p : Pending)
      → Follows s now p
      → Describes {E = E} s now (failure (lost e p))
  lost-Describes e p h = record { more = h.more; raw = ap join_lines h.raw; clock = h.clock }

  report-Describes :
      (p : Pending) (v : Validated E) → Follows s now p → Describes s now (report validate p v)
  report-Describes p (valid e) h = record {
    more = h.more;
    raw = ap join_lines h.raw;
    clock = h.clock;
  }
  report-Describes p (violation e) h = record {
    more = h.more;
    raw = ap join_lines h.raw;
    clock = h.clock;
  }

  finalise-Describes : (p : Pending) → Follows s now p → Describes s now (finalise validate p)
  unfolding finalise
  finalise-Describes p h = elim (Option-cases p.envelope.c) [
    | inl e ↦ rw (e, finalise) (lost-Describes _ p h)
    | inr (id, e) ↦ rw (e, finalise) (report-Describes p (validate p.envelope) h)
  ]

  -- The line has been reported, or the event waits, with one line more.
  data Progress (seen : ℕ) : List (ParseResult E) × Option Pending → Type 0 where
    done :
        (r : ParseResult E) (rest : List (ParseResult E)) (q : Option Pending)
        → Describes s now r
        → Progress seen (r ∷ rest, q)
    going :
        (q : Pending)
        → Follows s now q
        → q.scope_lines_seen ≡ seen
        → seen < 80
        → Progress seen ([], some q)

  counted : (t : Text) (p : Pending) → Follows s now p → Follows s now (counted_line t p)
  counted t p h = record {
    more = h.more ++ (t ∷ []);
    raw = ap (λ (xs : List Text). xs ++ (t ∷ [])) h.raw;
    clock = h.clock;
  }

  below : (n : ℕ) → leb 80 n ≡ false → n < 80
  below n h = ground arith

  step-Progress :
      {t : Text} (p : Pending) (r : List (ParseResult E) × Option Pending)
      → ScopeStep validate t p r
      → Follows s now p
      → Progress p.scope_lines_seen r
  step-Progress p _ (ScopeStep.times_out e) h = done _ [] none (lost-Describes _ p h)
  step-Progress p _ (ScopeStep.ends e) h = done _ [] none (finalise-Describes p h)
  step-Progress p _ (ScopeStep.waits e) h = going p h refl (below _ e)
  step-Progress p _ (ScopeStep.starts id rest e g k) h =
      going _ (record { more = h.more; raw = h.raw; clock = h.clock }) refl (below _ e)
  step-Progress {t} p _ (ScopeStep.reads e) h =
      let keeps = dump_line-Keeps t p in
      going _
        (record {
          more = h.more;
          raw = keeps.raw_lines ∙ h.raw;
          clock = keeps.wall_clock_at ∙ h.clock;
        })
        keeps.scope_lines_seen (below _ e)

  tag_line-Progress :
      (at : String) (t body : Text) (p : Pending) (seen : ℕ)
      → Follows s now p
      → Progress seen (tag_line validate at t body (some p))
  unfolding tag_line
  tag_line-Progress at t body p seen h = elim (Built-cases (build_envelope body)) [
    | inl (e, k) ↦ rw (k, tag_line) (done _ _ _ (finalise-Describes p h))
    | inr (e, k) ↦ rw (k, tag_line) (done _ _ _ (finalise-Describes p h))
  ]

  feed-Progress :
      (at : String) (line : Text) (p : Pending)
      → Follows s now p
      → Progress (p.scope_lines_seen + 1) (feed validate at line (some p))
  feed-Progress at line p h = elim (Option-cases (chronicler_body (stripped_line line))) [
    | inl e ↦ rw (feed-untagged validate at line (some p) e) (
        step-Progress (counted_line (stripped_line line) p) _
          (scope_line-step validate (stripped_line line) _) (counted _ p h))
    | inr (body, e) ↦
        rw (feed-tagged validate at line body (some p) e) (tag_line-Progress at _ body p _ h)
  ]

  -- From here on, the lines are enough for the event to end.
  abbrev EndsWithin : List Line → Type 0
  EndsWithin lines =
      (p : Pending)
      → Follows s now p
      → p.scope_lines_seen < 80
      → 80 ≤ p.scope_lines_seen + length lines
      → Reports s now (run validate lines (some p)).0

  next-Reports :
      (lines : List Line) (seen : ℕ) (next : List (ParseResult E) × Option Pending)
      → EndsWithin lines
      → Progress seen next
      → 80 ≤ seen + length lines
      → Reports s now (next.0 ++ (run validate lines next.1).0)
  next-Reports lines seen _ ih (Progress.done r rest q d) l = reports r _ d
  next-Reports lines seen _ ih (Progress.going q h e k) l =
      ih q h (omega (arith, e)) (omega (arith, e))

  run-Reports : (lines : List Line) → EndsWithin lines
  unfolding run
  run-Reports [] p h k l = absurd (omega arith)
  run-Reports ((at, line) ∷ lines) p h k l =
      next-Reports lines _ _ (run-Reports lines) (feed-Progress at line p h) (omega arith)

  -- A tagged line gives its result at once, or an event that waits with no line seen.
  tagged-Reports :
      (body : Text) (lines : List Line)
      → 80 ≤ length lines
      → let next = tag_line validate now s body none in
        Reports s now (next.0 ++ (run validate lines next.1).0)
  unfolding tag_line
  tagged-Reports body lines h = elim (Built-cases (build_envelope body)) [
    | inl (e, k) ↦
        rw (k, tag_line)
          (run-Reports lines _ (record { more = []; raw = refl; clock = refl }) (omega arith)
            (omega arith))
    | inr (e, k) ↦ rw (k, tag_line) (reports _ _ (record { more = []; raw = refl; clock = refl }))
  ]

-- Every tagged line is reported: whatever the 80 lines after it are, the results that come out up to
-- the last of them begin, behind the end of the event that was pending, with one whose text begins
-- with the tagged line and whose clock is that of the moment when it was fed.
pub tagged_line-Reports :
    {E : Type 0} (validate : Envelope → Validated E) (now : String) (line body : Text)
    (lines : List Line) (p : Option Pending)
    → chronicler_body (stripped_line line) ≡ some body
    → 80 ≤ length lines
    → (rest : List (ParseResult E)) × ((run validate ((now, line) ∷ lines) p).0
        ≡ finalised validate p ++ rest)
      × Reports (stripped_line line) now rest
unfolding run
tagged_line-Reports validate now line body lines p h k =
    let s = stripped_line line in
    (
      (run validate ((now, line) ∷ lines) none).0,
      ap (λ r. r.0) (cut validate lines now line body p h),
      rw (feed-tagged validate now line body none h) (tagged-Reports validate s now body lines k),
    )
