-- ===== src/Tailer/Sources.antt =====
-- src/chronicler/tailer/parser.py: where the character and the participants of a parsed event come from.
use ck3_llm_chronicler.Base.{
  strip, ℕ, Text, true, List, [], ◌∷◌, Option, none, some, String, All, All-append, Distinct,
  dedupe-Distinct, is_empty, member, ◌≡◌, ◌∙◌, sym, refl, inl, inr, ◌⊎◌, Option-cases, Bool-cases,
  nat_order, list_order, pair_order, arith, ap, subst,
}
use ck3_llm_chronicler.Tailer.Scan.{chronicler_body, has_engine_prefix, internal_id}
use ck3_llm_chronicler.Tailer.Envelope.{
  Envelope, built, build_envelope, read_segments, partition, split_at, set_field, envelope_keys,
}
use ck3_llm_chronicler.Tailer.Parser.{
  Pending, Validated, valid, violation, ParseResult, parsed, failure, report, finalise, finalised,
}
use ck3_llm_chronicler.Tailer.Feed.{feed, tag_line, other_line, counted_line}
use ck3_llm_chronicler.Tailer.Steps.{
  Line, ScopeStep, scope_line-step, feed-untagged, feed-tagged, run, stripped_line, dump_line-Keeps,
}
use ck3_llm_chronicler.Tailer.Counts.{Built-cases}

set_field-c : (key value : Text) (e : Envelope) → (set_field key value e).c ≡ e.c
set_field-c key value e = elim (Bool-cases (member key envelope_keys)) [
  | inl h ↦ rw (h, set_field) refl
  | inr h ↦ rw (h, set_field) refl
]

-- Whatever the segments are, they do not set the character.
read_segments-c :
    (segments : List Text) (e f : Envelope) → read_segments segments e ≡ built f → f.c ≡ e.c
unfolding read_segments
read_segments-c [] e f h = ground arith
read_segments-c (segment ∷ rest) e f h = elim (Option-cases (partition b'=' segment)) [
  | inl k ↦ absurd (ground (arith, k))
  | inr ((key, value), k) ↦ elim (Bool-cases (is_empty (strip key))) [
    | inl l ↦ absurd (ground (arith, k, l))
    | inr l ↦
        read_segments-c rest (set_field (strip key) value e) f (ground (arith, k, l))
        ∙ set_field-c (strip key) value e
  ]
]

build_envelope-c : (body : Text) (e : Envelope) → build_envelope body ≡ built e → e.c ≡ none
unfolding build_envelope
build_envelope-c body e h =
    read_segments-c (split_at b'|' body) (record { fields = []; c = none; p = [] }) e h

-- `id` is the Internal ID of an engine line among the lines.
abbrev pub FromDump : List Line → ℕ → Type 0
FromDump [] id = ⊥
FromDump ((now, line) ∷ lines) id =
    ((has_engine_prefix (stripped_line line) ≡ true)
      × (rest : Text) × (internal_id (stripped_line line) ≡ some (id, rest)))
    ⊎ FromDump lines id

module _ {E : Type 0} (validate : Envelope → Validated E) (Q : ℕ → Type 0) where
  -- A parsed event was validated from an envelope whose character satisfies `Q`.
  abbrev pub Sound : ParseResult E → Type 0
  Sound (parsed e) =
      Distinct e.participants
      × (envelope : Envelope) × (validate envelope ≡ valid e.event)
      × (id : ℕ) × (envelope.c ≡ some id)
      × Q id
  Sound (failure f) = Unit

  abbrev Named : Option Pending → Type 0
  Named none = Unit
  Named (some p) = (id : ℕ) → p.envelope.c ≡ some id → Q id

  report-Sound :
      (p : Pending) (id : ℕ) (v : Validated E)
      → p.envelope.c ≡ some id
      → Q id
      → validate p.envelope ≡ v
      → Sound (report validate p v)
  report-Sound p id (violation message) e q h = tt
  report-Sound p id (valid event) e q h =
      (dedupe-Distinct [] p.participants, p.envelope, h, id, e, q)

  finalise-Sound : (p : Pending) → Named (some p) → Sound (finalise validate p)
  unfolding finalise
  finalise-Sound p n = elim (Option-cases p.envelope.c) [
    | inl e ↦ rw (e, finalise) tt
    | inr (id, e) ↦ rw (e, finalise) (report-Sound p id (validate p.envelope) e (n id e) refl)
  ]

  finalised-Sound : (p : Option Pending) → Named p → All Sound (finalised validate p)
  finalised-Sound none n = tt
  finalised-Sound (some p) n = (finalise-Sound p n, tt)

  abbrev Fine : List (ParseResult E) × Option Pending → Type 0
  Fine r = All Sound r.0 × Named r.1

  -- What the line says of the character, if it starts a dump.
  abbrev Tells : Text → Type 0
  Tells s =
      (id : ℕ) (rest : Text) → has_engine_prefix s ≡ true → internal_id s ≡ some (id, rest) → Q id

  step-Fine :
      {s : Text} (p : Pending) (r : List (ParseResult E) × Option Pending)
      → ScopeStep validate s p r
      → Tells s
      → Named (some p)
      → Fine r
  step-Fine p _ (ScopeStep.times_out e) t n = ((tt, tt), tt)
  step-Fine p _ (ScopeStep.ends e) t n = ((finalise-Sound p n, tt), tt)
  step-Fine p _ (ScopeStep.waits e) t n = (tt, n)
  step-Fine p _ (ScopeStep.starts id rest e f g) t n =
      (tt, λ j k. let same : id ≡ j = cc in subst Q (same) (t id rest f g))
  step-Fine {s} p _ (ScopeStep.reads e) t n =
      (tt, λ j k. n j (ap (λ (x : Envelope). x.c) (sym (dump_line-Keeps s p).envelope) ∙ k))

  tag_line-Fine :
      (now : String) (s body : Text) (p : Option Pending)
      → Named p
      → Fine (tag_line validate now s body p)
  unfolding tag_line
  tag_line-Fine now s body p n = elim (Built-cases (build_envelope body)) [
    | inl (e, h) ↦
        rw (h, tag_line)
          (finalised-Sound p n, λ id k. absurd (let c = build_envelope-c body e h in ground arith))
    | inr (e, h) ↦
        rw (h, tag_line)
          (All-append Sound (finalised validate p) _ (finalised-Sound p n) (tt, tt), tt)
  ]

  other_line-Fine :
      (s : Text) (p : Option Pending) → Tells s → Named p → Fine (other_line validate s p)
  other_line-Fine s none t n = (tt, tt)
  other_line-Fine s (some p) t n = step-Fine (counted_line s p) _ (scope_line-step validate s _) t n

  feed-Fine :
      (now : String) (line : Text) (p : Option Pending)
      → Tells (stripped_line line)
      → Named p
      → Fine (feed validate now line p)
  feed-Fine now line p t n = elim (Option-cases (chronicler_body (stripped_line line))) [
    | inl e ↦ rw (feed-untagged validate now line p e) (other_line-Fine _ p t n)
    | inr (body, e) ↦ rw (feed-tagged validate now line body p e) (tag_line-Fine now _ body p n)
  ]

  run-Fine :
      (lines : List Line) (p : Option Pending)
      → ((id : ℕ) → FromDump lines id → Q id)
      → Named p
      → Fine (run validate lines p)
  unfolding run
  run-Fine [] p t n = (tt, n)
  run-Fine ((now, line) ∷ lines) p t n =
      let next = feed-Fine now line p (λ id rest e f. t id (inl (e, rest, f))) n in
      let after = run-Fine lines (feed validate now line p).1 (λ id h. t id (inr h)) next.1 in
      (All-append Sound _ _ next.0 after.0, after.1)

-- Of any log, read by a new parser: the participants of every parsed event are distinct, and the event
-- was validated from an envelope whose character is the Internal ID of an engine line of that log.
pub run-Sound :
    {E : Type 0} (validate : Envelope → Validated E) (lines : List Line)
    → All (Sound validate (FromDump lines)) (run validate lines none).0
run-Sound validate lines = (run-Fine validate (FromDump lines) lines none (λ id h. h) tt).0
