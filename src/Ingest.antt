-- ===== src/Ingest.antt =====
-- src/chronicler/ingest_common.py, and of src/chronicler/db/repository.py the two inserts that it calls:
-- how both transports store an event. A table is the list of its rows, newest first, and the calls of
-- the scheduler and of the hooks are lists of what they were called with, newest first. The JSON of an
-- event and the filling of a character's row are parameters.
pub mod Once
use ck3_llm_chronicler.Base.{
  ℕ, ◌+◌, String, Bool, List, [], ◌∷◌, map, flat_map, Option, none, some, if◌then◌else◌, ◌&&◌, ◌≡?◌,
  nat_order, text_order, pair_order, Dict, put, member, dedupe,
}
use ck3_llm_chronicler.Events.{Payload, death, Event, event_type}

abbrev pub CharacterRole : Type 0
CharacterRole = ℕ × String

pub record EventRow : Type 0 where
  pub id : ℕ
  pub schema_version : ℕ
  pub event_type : String
  pub event_date : String
  pub event_date_iso : Option String
  pub wall_clock_at : String
  pub primary_character_id : ℕ
  pub payload_json : String
  pub raw_line : String

pub record Session : Type 0 where
  pub next_id : ℕ
  pub events : List EventRow
  pub event_participants : List (ℕ × CharacterRole)
  pub characters : Dict ℕ (Option ℕ)
  pub scheduled : List ℕ
  pub skipped : List ℕ
  pub ingested : List ℕ

-- What a transport gives with each event.
pub record Arrival : Type 0 where
  pub event : Event
  pub event_date_iso : Option String
  pub wall_clock_at : String
  pub raw_line : String
  pub scope_participants : List CharacterRole
  pub should_schedule_death : Bool

-- What a transport has fixed: the order of the merge, and which of the hooks are there.
pub record Transport : Type 0 where
  pub payload_participants_first : Bool
  pub has_scheduler : Bool
  pub has_on_death_schedule_skipped : Bool
  pub has_on_ingested : Bool

-- The columns of the unique index `events_idempotency`.
abbrev pub Key : Type 0
Key = String × (String × (ℕ × String))

abbrev pub key_of : EventRow → Key
key_of row = (row.event_type, (row.event_date, (row.primary_character_id, row.payload_json)))

unfoldable pub insert_participants :
    ℕ → List CharacterRole → List (ℕ × CharacterRole) → List (ℕ × CharacterRole)
unfolding member
insert_participants event_id [] rows = rows
insert_participants event_id (p ∷ ps) rows =
    insert_participants event_id ps
      (if member (event_id, p) rows then rows else (event_id, p) ∷ rows)

-- The new id, or none where the index holds the key. The id of the given row is not read.
unfoldable pub insert_event_idempotent :
    EventRow → List CharacterRole → Session → Option ℕ × Session
unfolding member
insert_event_idempotent row participants s =
    if member (key_of row) (map key_of s.events) then (none, s) else (
      some s.next_id,
      record s {
        next_id = s.next_id + 1;
        events = record row { id = s.next_id } ∷ s.events;
        event_participants = insert_participants s.next_id participants s.event_participants;
      },
    )

abbrev pub payload_participants : Payload → List CharacterRole
payload_participants (death p) = elim p.killer [ none ↦ [] | some killer ↦ (killer, "killer") ∷ [] ]
payload_participants p = []

-- The pairs of all sources, each once, in the order in which they first come.
unfoldable pub merge_participants : List (List CharacterRole) → List CharacterRole
unfolding dedupe
merge_participants sources = dedupe [] (flat_map (λ source. source) sources)

-- `isinstance(event, DeathEvent)`: the class with this discriminator.
abbrev pub is_death : Event → Bool
is_death event = event_type event.p ≡? "death"

module _ (payload_canonical_json : Event → String)
    (upsert_character_fn : ℕ → Dict ℕ (Option ℕ) → Dict ℕ (Option ℕ)) (t : Transport) where
  unfoldable pub upsert_all : List CharacterRole → Dict ℕ (Option ℕ) → Dict ℕ (Option ℕ)
  upsert_all [] characters = characters
  upsert_all ((character_id, role) ∷ ps) characters =
      upsert_all ps (upsert_character_fn character_id characters)

  abbrev pub row_of : Arrival → EventRow
  row_of a = record {
    id = 0;
    schema_version = a.event.v;
    event_type = event_type a.event.p;
    event_date = a.event.d;
    event_date_iso = a.event_date_iso;
    wall_clock_at = a.wall_clock_at;
    primary_character_id = a.event.c;
    payload_json = payload_canonical_json a.event;
    raw_line = a.raw_line;
  }

  abbrev pub participants_of : Arrival → List CharacterRole
  participants_of a =
      let payload = payload_participants a.event.p in
      let scope = a.scope_participants in
      if t.payload_participants_first
      then merge_participants (payload ∷ scope ∷ [])
      else merge_participants (scope ∷ payload ∷ [])

  -- The calls after the insert of the row with the id.
  unfoldable pub follow_up : Arrival → ℕ → Session → Session
  follow_up a event_id s =
      let dies = t.has_scheduler && is_death a.event in
      let c = a.event.c in
      record s {
        characters = put c (some event_id) s.characters;
        scheduled = if dies && a.should_schedule_death then c ∷ s.scheduled else s.scheduled;
        skipped =
            if dies
            then if a.should_schedule_death
              then s.skipped
              else if t.has_on_death_schedule_skipped
              then c ∷ s.skipped
              else s.skipped
            else s.skipped;
        ingested = if t.has_on_ingested then event_id ∷ s.ingested else s.ingested;
      }

  unfoldable pub after_insert : Arrival → Option ℕ × Session → Option ℕ × Session
  after_insert a (none, s) = (none, s)
  after_insert a (some event_id, s) = (some event_id, follow_up a event_id s)

  -- The session with the character of the event and the participants in their rows.
  abbrev pub with_characters : Arrival → Session → Session
  with_characters a s = record s {
    characters = upsert_all (participants_of a) (upsert_character_fn a.event.c s.characters);
  }

  unfoldable pub ingest_event : Arrival → Session → Option ℕ × Session
  ingest_event a s =
      after_insert a (insert_event_idempotent (row_of a) (participants_of a) (with_characters a s))
