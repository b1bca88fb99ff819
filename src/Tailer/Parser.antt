-- ===== src/Tailer/Parser.antt =====
-- src/chronicler/tailer/parser.py: the pending event and its results. What validates an envelope
-- (pydantic, over the classes of the schema) is a parameter.
use ck3_llm_chronicler.Base.{
  ℕ, Text, Bool, List, [], ◌∷◌, ◌++◌, Option, none, some, nat_order, list_order, pair_order, dedupe,
  String,
}
use ck3_llm_chronicler.Tailer.Envelope.{Envelope, FormatError, envelope_kind}

-- The lines of a file without what ends them.
abbrev pub join_lines : List Text → Text
join_lines [] = []
join_lines (s ∷ []) = s
join_lines (s ∷ t ∷ rest) = s ++ (10 ∷ join_lines (t ∷ rest))

-- What the `error` texts say.
pub data ParseError : Type 0 where
  no_internal_id : ParseError
  validation : String → ParseError
  invalid_format_of : FormatError → ParseError
  exceeded_timeout : ParseError
  end_of_stream : ParseError

pub data FailureReason : Type 0 where
  invalid_format : FailureReason
  schema_violation : FailureReason
  missing_scope : FailureReason

pub data Section : Type 0 where
  no_section : Section
  event_targets : Section
  list_targets : Section

abbrev pub Participant : Type 0
Participant = Text × ℕ

pub record Pending : Type 0 where
  pub envelope : Envelope
  pub wall_clock_at : String
  pub raw_lines : List Text
  pub participants : List Participant
  pub scope_lines_seen : ℕ
  pub saw_dump_start : Bool
  pub section : Section
  pub current_list_name : Option Text

pub data Validated (E : Type 0) : Type 0 where
  valid : E → Validated E
  violation : String → Validated E

pub record ParsedEvent (E : Type 0) : Type 0 where
  pub event : E
  pub raw_line : Text
  pub wall_clock_at : String
  pub participants : List Participant

pub record ParseFailure : Type 0 where
  pub raw_line : Text
  pub error : ParseError
  pub reason : FailureReason
  pub wall_clock_at : String
  pub event_kind : Option Text

pub data ParseResult (E : Type 0) : Type 0 where
  parsed : ParsedEvent E → ParseResult E
  failure : ParseFailure → ParseResult E

abbrev pub scope_timeout_lines : ℕ
scope_timeout_lines = 80

abbrev pub lost : ParseError → Pending → ParseFailure
lost error pending = record {
  raw_line = join_lines pending.raw_lines;
  error = error;
  reason = missing_scope;
  wall_clock_at = pending.wall_clock_at;
  event_kind = envelope_kind pending.envelope;
}

module _ {E : Type 0} (validate : Envelope → Validated E) where
  abbrev pub report : Pending → Validated E → ParseResult E
  report pending (violation message) =
      failure (record (lost (validation message) pending) { reason = schema_violation })
  report pending (valid event) = parsed (record {
    event = event;
    raw_line = join_lines pending.raw_lines;
    wall_clock_at = pending.wall_clock_at;
    participants = dedupe [] pending.participants;
  })

  unfoldable pub finalise : Pending → ParseResult E
  unfolding dedupe
  finalise pending = elim pending.envelope.c [
    | none ↦ failure (lost no_internal_id pending)
    | some id ↦ report pending (validate pending.envelope)
  ]

  abbrev pub finalised : Option Pending → List (ParseResult E)
  finalised none = []
  finalised (some pending) = finalise pending ∷ []
