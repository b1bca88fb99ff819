-- ===== src/LogBuffer.antt =====
-- src/chronicler/api/log_buffer.py: `LogBufferHandler`. Every method holds the lock while it reads or
-- writes. A log record comes as its formatted parts; one whose formatting raises changes nothing.
pub mod Polling
use ck3_llm_chronicler.Base.{
  ℕ, suc, ◌+◌, ◌-◌, ◌<◌, String, Bool, true, false, not, List, [], ◌∷◌, ◌++◌, map, Option, none,
  some, if◌then◌else◌, ◌==◌, ltb, leb, ◌≡?◌, text_order, filter, length, drop, sorted, member,
}

pub record LogEnvelope : Type 0 where
  pub seq : ℕ
  pub ts : String
  pub level : String
  pub logger : String
  pub message : String

pub record LogBuffer : Type 0 where
  pub buffer : List LogEnvelope
  pub maxlen : ℕ
  pub next_seq : ℕ

abbrev pub max_buffered_lines : ℕ
max_buffered_lines = 2000

abbrev pub level_names : List String
level_names = "DEBUG" ∷ "INFO" ∷ "WARNING" ∷ "ERROR" ∷ "CRITICAL" ∷ []

abbrev pub new_buffer : ℕ → LogBuffer
new_buffer maxlen = record { buffer = []; maxlen = maxlen; next_seq = 1 }

-- `deque(maxlen=n).append(e)`
unfoldable pub push_bounded : ℕ → List LogEnvelope → LogEnvelope → List LogEnvelope
push_bounded n xs e = let ys = xs ++ (e ∷ []) in drop (length ys - n) ys

unfoldable pub emit : LogEnvelope → LogBuffer → LogBuffer
unfolding push_bounded
emit envelope s = record s {
  next_seq = suc s.next_seq;
  buffer = push_bounded s.maxlen s.buffer (record envelope { seq = s.next_seq });
}

-- `_LEVEL_NAMES.index(level)`, or nothing where it raises
abbrev pub level_from : ℕ → List String → String → Option ℕ
level_from i [] level = none
level_from i (name ∷ names) level =
    let rest = level_from (suc i) names level in if level ≡? name then some i else rest

abbrev pub level_index : String → Option ℕ
level_index level = level_from 0 level_names level

abbrev pub at_least : ℕ → List LogEnvelope → Option (List LogEnvelope)
at_least threshold [] = some []
at_least threshold (e ∷ es) = elim (level_index e.level) [
  | none ↦ none
  | some i ↦ elim (at_least threshold es) [
    | none ↦ none
    | some rest ↦ some (if leb threshold i then e ∷ rest else rest)
  ]
]

abbrev pub above : Option ℕ → List LogEnvelope → Option (List LogEnvelope)
above none es = some es
above (some threshold) es = at_least threshold es

abbrev pub threshold_of : Option String → Option ℕ
threshold_of none = none
threshold_of (some level) = level_index level

-- A limit of zero is none. A level of the buffer that is not one of the names raises where there is a
-- threshold, and nothing is returned.
unfoldable pub recent : ℕ → Option String → LogBuffer → Option (List LogEnvelope)
recent limit min_level s = elim (above (threshold_of min_level) s.buffer) [
  | none ↦ none
  | some es ↦ some (if limit == 0 then es else drop (length es - limit) es)
]

unfoldable pub since : ℕ → LogBuffer → List LogEnvelope × ℕ
since last_seen s = (filter (λ e. ltb last_seen e.seq) s.buffer, s.next_seq - 1)

unfoldable pub known_loggers : LogBuffer → List String
unfolding sorted
known_loggers s = sorted (map (λ e. e.logger) s.buffer)
