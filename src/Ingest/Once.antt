-- ===== src/Ingest/Once.antt =====
-- src/chronicler/ingest_common.py: an event that arrives again is stored and announced once.
use ck3_llm_chronicler.Base.{
  ℕ, ◌+◌, ◌≤◌, String, ◌&&◌, List, [], ◌∷◌, map, Option, if◌then◌else◌, ◌≡?◌, filter, length,
  member, Distinct, nat_order, text_order, pair_order, Dict, ◌≡◌,
}
use ck3_llm_chronicler.Events.{Event}
use ck3_llm_chronicler.Ingest.{
  Session, EventRow, Arrival, Transport, CharacterRole, Key, key_of, row_of, ingest_event,
}

abbrev pub new_session : Session
new_session = record {
  next_id = 1;
  events = [];
  event_participants = [];
  characters = [];
  scheduled = [];
  skipped = [];
  ingested = [];
}

abbrev pub keys_of : List EventRow → List Key
keys_of rows = map key_of rows

-- How many of the rows are deaths.
abbrev pub deaths : List EventRow → ℕ
deaths rows = length (filter (λ (r : EventRow). r.event_type ≡? "death") rows)

abbrev with_row : EventRow → List (ℕ × CharacterRole) → Session → Session
with_row row participants s = record s {
  next_id = s.next_id + 1;
  events = record row { id = s.next_id } ∷ s.events;
  event_participants = participants;
}

module _ (payload_canonical_json : Event → String)
    (upsert_character_fn : ℕ → Dict ℕ (Option ℕ) → Dict ℕ (Option ℕ)) (t : Transport) where
  abbrev pub ingest_all : List Arrival → Session → Session
  ingest_all [] s = s
  ingest_all (a ∷ arrivals) s =
      ingest_all arrivals (ingest_event payload_canonical_json upsert_character_fn t a s).1

  abbrev pub arrival_keys : List Arrival → List Key
  arrival_keys arrivals =
      map (λ a. key_of (row_of payload_canonical_json upsert_character_fn t a)) arrivals

  -- No key stands in two rows, each stored id was announced once, in order, where there is a hook, and
  -- each stored death was given once to the scheduler or to the hook, where there are both.
  pub record IsOnce (s : Session) : Type 0 where
    pub distinct : Distinct (keys_of s.events)
    pub announced : s.ingested ≡ (if t.has_on_ingested then map (λ r. r.id) s.events else [])
    pub bounded : length s.scheduled ≤ deaths s.events
    pub answered :
        (if t.has_scheduler && t.has_on_death_schedule_skipped
          then length s.scheduled + length s.skipped
          else deaths s.events)
        ≡ deaths s.events

  -- The keys of the table after an event with the key.
  abbrev with_key : Key → List Key → List Key
  with_key key keys = if member key keys then keys else key ∷ keys
