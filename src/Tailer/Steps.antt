-- ===== src/Tailer/Steps.antt =====
-- src/chronicler/tailer/parser.py: the ways in which `feed` takes a line, and runs over many lines.
use ck3_llm_chronicler.Base.{
  rstrip, ℕ, Text, Bool, true, false, List, [], ◌∷◌, ◌++◌, Option, none, some, leb, if◌then◌else◌,
  is_empty, nat_order, list_order, ◌≡?◌, codes, String, ◌≡◌, refl, inl, inr, Bool-cases,
  Option-cases,
}
use ck3_llm_chronicler.Tailer.Scan.{
  chronicler_body, has_engine_prefix, internal_id, save_scope, list_label, list_item,
}
use ck3_llm_chronicler.Tailer.Envelope.{Envelope}
use ck3_llm_chronicler.Tailer.Parser.{
  Pending, Section, no_section, event_targets, list_targets, Validated, ParseResult, failure,
  exceeded_timeout, lost, finalise, scope_timeout_lines,
}
use ck3_llm_chronicler.Tailer.Feed.{
  feed, tag_line, other_line, scope_line, engine_line, dump_line, section_line, listed, is_line_end,
}

-- A line with what the clock says when it is fed.
abbrev pub Line : Type 0
Line = String × Text

abbrev pub stripped_line : Text → Text
stripped_line line = rstrip is_line_end line

-- What the lines of a dump leave alone.
pub record Keeps (p q : Pending) : Type 0 where
  pub envelope : q.envelope ≡ p.envelope
  pub wall_clock_at : q.wall_clock_at ≡ p.wall_clock_at
  pub raw_lines : q.raw_lines ≡ p.raw_lines
  pub scope_lines_seen : q.scope_lines_seen ≡ p.scope_lines_seen

pub Keeps-refl : (p : Pending) → Keeps p p
Keeps-refl p = record {
  envelope = refl;
  wall_clock_at = refl;
  raw_lines = refl;
  scope_lines_seen = refl;
}

pub listed-Keeps : (s : Text) (name : Option Text) (p : Pending) → Keeps p (listed s name p)
listed-Keeps s none p = Keeps-refl p
listed-Keeps s (some name) p = elim (Option-cases (list_item s)) [
  | inl e ↦ rw (e, listed) (Keeps-refl p)
  | inr (id, e) ↦
      rw (e, listed)
        (record {
          envelope = refl;
          wall_clock_at = refl;
          raw_lines = refl;
          scope_lines_seen = refl;
        })
]

section_line-Keeps : (s : Text) (c : Section) (p : Pending) → Keeps p (section_line s c p)
section_line-Keeps s no_section p = Keeps-refl p
section_line-Keeps s event_targets p = elim (Option-cases (save_scope s)) [
  | inl e ↦ rw (e, section_line) (Keeps-refl p)
  | inr (found, e) ↦
      rw (e, section_line)
        (record {
          envelope = refl;
          wall_clock_at = refl;
          raw_lines = refl;
          scope_lines_seen = refl;
        })
]
section_line-Keeps s list_targets p = elim (Option-cases (list_label s)) [
  | inl e ↦ rw (e, section_line) (listed-Keeps s p.current_list_name p)
  | inr (name, e) ↦
      rw (e, section_line)
        (record {
          envelope = refl;
          wall_clock_at = refl;
          raw_lines = refl;
          scope_lines_seen = refl;
        })
]

pub dump_line-Keeps : (s : Text) (p : Pending) → Keeps p (dump_line s p)
unfolding dump_line
dump_line-Keeps s p = elim (Bool-cases (s ≡? codes "Saved event targets:")) [
  | inl e ↦
      rw e (record {
        envelope = refl;
        wall_clock_at = refl;
        raw_lines = refl;
        scope_lines_seen = refl;
      })
  | inr e ↦ elim (Bool-cases (s ≡? codes "Saved list targets:")) [
    | inl f ↦ rw e (
        rw f (record {
          envelope = refl;
          wall_clock_at = refl;
          raw_lines = refl;
          scope_lines_seen = refl;
        }))
    | inr f ↦ elim (Bool-cases (is_empty s)) [
      | inl g ↦ rw e (
          rw f (
            rw g (record {
              envelope = refl;
              wall_clock_at = refl;
              raw_lines = refl;
              scope_lines_seen = refl;
            })))
      | inr g ↦ rw e (rw f (rw g (section_line-Keeps s p.section p)))
    ]
  ]
]

-- A root scope is read: the dump has started.
abbrev pub dump_started : ℕ → Pending → Pending
dump_started id p = record p {
  saw_dump_start = true;
  envelope = record (p.envelope) { c = some id };
}

module _ {E : Type 0} (validate : Envelope → Validated E) where
  -- What an untagged line does to the pending event.
  pub data ScopeStep (s : Text) (p : Pending) : List (ParseResult E) × Option Pending → Type 0 where
    times_out :
        leb scope_timeout_lines p.scope_lines_seen ≡ true
        → ScopeStep s p (failure (lost exceeded_timeout p) ∷ [], none)
    ends : has_engine_prefix s ≡ true → ScopeStep s p (finalise validate p ∷ [], none)
    waits : leb scope_timeout_lines p.scope_lines_seen ≡ false → ScopeStep s p ([], some p)
    starts :
        (id : ℕ) (rest : Text)
        → leb scope_timeout_lines p.scope_lines_seen ≡ false
        → has_engine_prefix s ≡ true
        → internal_id s ≡ some (id, rest)
        → ScopeStep s p ([], some (dump_started id p))
    reads :
        leb scope_timeout_lines p.scope_lines_seen ≡ false
        → ScopeStep s p ([], some (dump_line s p))

  either :
      {s : Text} {p : Pending} {r t : List (ParseResult E) × Option Pending} (b : Bool)
      → ScopeStep s p r
      → ScopeStep s p t
      → ScopeStep s p (if b then r else t)
  either true h k = h
  either false h k = k

  engine_line-step :
      (s : Text) (p : Pending)
      → leb scope_timeout_lines p.scope_lines_seen ≡ false
      → has_engine_prefix s ≡ true
      → ScopeStep s p (engine_line validate s p)
  unfolding engine_line
  engine_line-step s p t e =
      either (p.saw_dump_start) (ends e) (elim (Option-cases (internal_id s)) [
        | inl g ↦ rw g (waits t)
        | inr ((id, rest), g) ↦ rw g (starts id rest t e g)
      ])

  pub scope_line-step : (s : Text) (p : Pending) → ScopeStep s p (scope_line validate s p)
  unfolding scope_line
  scope_line-step s p = elim (Bool-cases (leb scope_timeout_lines p.scope_lines_seen)) [
    | inl e ↦ rw e (times_out e)
    | inr e ↦ elim (Bool-cases (has_engine_prefix s)) [
      | inl f ↦ rw e (rw f (engine_line-step s p e f))
      | inr f ↦ rw e (rw f (reads e))
    ]
  ]

  pub feed-untagged :
      (now : String) (line : Text) (p : Option Pending)
      → chronicler_body (stripped_line line) ≡ none
      → feed validate now line p ≡ other_line validate (stripped_line line) p
  unfolding feed
  feed-untagged now line p h = rw (h, feed) refl

  pub feed-tagged :
      (now : String) (line body : Text) (p : Option Pending)
      → chronicler_body (stripped_line line) ≡ some body
      → feed validate now line p ≡ tag_line validate now (stripped_line line) body p
  unfolding feed
  feed-tagged now line body p h = rw (h, feed) refl

  -- The lines in their order: all results, and the event that is pending at the end.
  unfoldable pub run : List Line → Option Pending → List (ParseResult E) × Option Pending
  run [] p = ([], p)
  run ((now, line) ∷ lines) p =
      let next = feed validate now line p in
      let rest = run lines next.1 in (next.0 ++ rest.0, rest.1)
