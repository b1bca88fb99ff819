-- ===== src/Tailer/Envelope.antt =====
-- src/chronicler/tailer/parser.py: the envelope of a tagged line, and its errors.
use ck3_llm_chronicler.Base.{
  strip, ℕ, Text, codes, List, [], ◌∷◌, Option, none, some, if◌then◌else◌, ◌==◌, is_empty, member,
  Dict, get, put, nat_order, list_order,
}

-- The `ValueError`s of `_build_envelope`.
pub data FormatError : Type 0 where
  not_key_value : Text → FormatError
  empty_key : Text → FormatError

-- The dict of the code: its text keys `v`, `t` and `d`, its number `c`, and its dict `p`.
pub record Envelope : Type 0 where
  pub fields : Dict Text Text
  pub c : Option ℕ
  pub p : Dict Text Text

pub data Built : Type 0 where
  built : Envelope → Built
  refused : FormatError → Built

abbrev pub envelope_keys : List Text
envelope_keys = codes "v" ∷ codes "t" ∷ codes "d" ∷ []

abbrev pub cons_first : ℕ → List Text → List Text
cons_first c [] = (c ∷ []) ∷ []
cons_first c (s ∷ rest) = (c ∷ s) ∷ rest

-- `body.split(stop)`
unfoldable pub split_at : ℕ → Text → List Text
split_at stop [] = [] ∷ []
split_at stop (c ∷ s) =
    let rest = split_at stop s in if c == stop then [] ∷ rest else cons_first c rest

-- `segment.partition("=")`, where there is a separator
unfoldable pub partition : ℕ → Text → Option (Text × Text)
partition stop [] = none
partition stop (c ∷ s) =
    let rest = partition stop s in
    if c == stop
    then some ([], s)
    else elim rest [ none ↦ none | some (key, value) ↦ some (c ∷ key, value) ]

abbrev pub set_field : Text → Text → Envelope → Envelope
set_field key value e =
    if member key envelope_keys
    then record e { fields = put key value e.fields }
    else record e { p = put key value e.p }

unfoldable pub read_segments : List Text → Envelope → Built
unfolding partition strip
read_segments [] e = built e
read_segments (segment ∷ rest) e = elim (partition b'=' segment) [
  | none ↦ refused (not_key_value segment)
  | some (key, value) ↦
      if is_empty (strip key)
      then refused (empty_key segment)
      else read_segments rest (set_field (strip key) value e)
]

unfoldable pub build_envelope : Text → Built
unfolding split_at read_segments
build_envelope body = read_segments (split_at b'|' body) (record { fields = []; c = none; p = [] })

-- The event type, where the envelope has one that is not empty.
unfoldable pub envelope_kind : Envelope → Option Text
unfolding get
envelope_kind e = elim (get (codes "t") e.fields) [
  | none ↦ none
  | some t ↦ if is_empty t then none else some t
]
