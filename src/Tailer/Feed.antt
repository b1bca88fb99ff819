-- ===== src/Tailer/Feed.antt =====
-- src/chronicler/tailer/parser.py: `IncrementalParser.feed` and `flush`. The pending event is the state,
-- and the clock is an argument. The methods return the results and the next state.
use ck3_llm_chronicler.Base.{
  rstrip, ℕ, ◌+◌, Text, codes, Bool, true, false, List, [], ◌∷◌, ◌++◌, Option, none, some,
  if◌then◌else◌, leb, is_empty, ◌==◌, ◌||◌, nat_order, list_order, ◌≡?◌, String,
}
use ck3_llm_chronicler.Tailer.Scan.{
  chronicler_body, has_engine_prefix, internal_id, save_scope, list_label, list_item,
}
use ck3_llm_chronicler.Tailer.Envelope.{Envelope, built, refused, build_envelope}
use ck3_llm_chronicler.Tailer.Parser.{
  Pending, Section, no_section, event_targets, list_targets, Validated, ParseResult, failure,
  invalid_format, invalid_format_of, exceeded_timeout, end_of_stream, lost, finalise, finalised,
  scope_timeout_lines,
}

abbrev pub add_participant : Text → ℕ → Pending → Pending
add_participant role id pending = record pending {
  participants = pending.participants ++ ((role, id) ∷ []);
}

abbrev pub listed : Text → Option Text → Pending → Pending
listed stripped none pending = pending
listed stripped (some name) pending = elim (list_item stripped) [
  | none ↦ pending
  | some id ↦ add_participant name id pending
]

-- The lines of a section.
abbrev pub section_line : Text → Section → Pending → Pending
section_line stripped no_section pending = pending
section_line stripped event_targets pending = elim (save_scope stripped) [
  | none ↦ pending
  | some (role, id) ↦ add_participant role id pending
]
section_line stripped list_targets pending = elim (list_label stripped) [
  | some name ↦ record pending { current_list_name = some name }
  | none ↦ listed stripped pending.current_list_name pending
]

-- The lines of a dump between its start and its end.
unfoldable pub dump_line : Text → Pending → Pending
unfolding save_scope list_label list_item
dump_line stripped pending =
    if stripped ≡? codes "Saved event targets:"
    then record pending { section = event_targets; current_list_name = none }
    else if stripped ≡? codes "Saved list targets:"
    then record pending { section = list_targets; current_list_name = none }
    else if is_empty stripped
    then record pending { current_list_name = none }
    else section_line stripped pending.section pending

abbrev pub counted_line : Text → Pending → Pending
counted_line stripped pending = record pending {
  raw_lines = pending.raw_lines ++ (stripped ∷ []);
  scope_lines_seen = pending.scope_lines_seen + 1;
}

abbrev pub is_line_end : ℕ → Bool
is_line_end c = (c == 13) || (c == 10)

module _ {E : Type 0} (validate : Envelope → Validated E) where
  -- The lines that carry the tag: what was pending ends here, and a new event is pending.
  unfoldable pub tag_line :
      String → Text → Text → Option Pending → List (ParseResult E) × Option Pending
  unfolding build_envelope
  tag_line now stripped body pending = elim (build_envelope body) [
    | refused e ↦ (
      finalised validate pending
          ++ (failure (record {
            raw_line = stripped;
            error = invalid_format_of e;
            reason = invalid_format;
            wall_clock_at = now;
            event_kind = none;
          })
              ∷ []),
      none,
    )
    | built envelope ↦ (
      finalised validate pending,
      some (record {
        envelope = envelope;
        wall_clock_at = now;
        raw_lines = stripped ∷ [];
        participants = [];
        scope_lines_seen = 0;
        saw_dump_start = false;
        section = no_section;
        current_list_name = none;
      }),
    )
  ]

  -- `[HH:MM:SS][D][file:n]:`, the line that starts a dump or ends it.
  unfoldable pub engine_line : Text → Pending → List (ParseResult E) × Option Pending
  unfolding internal_id
  engine_line stripped pending =
      if pending.saw_dump_start then (finalise validate pending ∷ [], none) else (
        [],
        some (elim (internal_id stripped) [
          | none ↦ pending
          | some (id, rest) ↦ record pending {
            saw_dump_start = true;
            envelope = record (pending.envelope) { c = some id };
          }
        ]),
      )

  -- A line without the tag, while an event is pending and the line is counted.
  unfoldable pub scope_line : Text → Pending → List (ParseResult E) × Option Pending
  unfolding has_engine_prefix engine_line dump_line
  scope_line stripped pending =
      if leb scope_timeout_lines pending.scope_lines_seen
      then (failure (lost exceeded_timeout pending) ∷ [], none)
      else if has_engine_prefix stripped
      then engine_line stripped pending
      else ([], some (dump_line stripped pending))

  abbrev pub other_line : Text → Option Pending → List (ParseResult E) × Option Pending
  other_line stripped none = ([], none)
  other_line stripped (some pending) = scope_line stripped (counted_line stripped pending)

  unfoldable pub feed : String → Text → Option Pending → List (ParseResult E) × Option Pending
  unfolding chronicler_body tag_line scope_line rstrip
  feed now line pending =
      let stripped = rstrip is_line_end line in
      elim (chronicler_body stripped) [
        | none ↦ other_line stripped pending
        | some body ↦ tag_line now stripped body pending
      ]

  unfoldable pub flush : Option Pending → List (ParseResult E) × Option Pending
  unfolding finalise
  flush none = ([], none)
  flush (some pending) = elim pending.envelope.c [
    | none ↦ (failure (lost end_of_stream pending) ∷ [], none)
    | some id ↦ (finalise validate pending ∷ [], none)
  ]
