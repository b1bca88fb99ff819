-- ===== src/Tests/Arrivals.antt =====
-- A death that arrives twice and a birth, over the bare upsert of the log's transport.
use ck3_llm_chronicler.Base.{
  ℕ, String, Bool, true, List, [], ◌∷◌, map, Option, none, some, if◌then◌else◌, Dict, has_key, get,
  put, member, dedupe, nat_order, text_order, pair_order, ◌≡◌, refl,
}
use ck3_llm_chronicler.Events.{Event, Payload, death, birth, event_type}
use ck3_llm_chronicler.Ingest.{
  Arrival, Transport, ingest_event, after_insert, follow_up, insert_event_idempotent,
  insert_participants, merge_participants, upsert_all,
}
use ck3_llm_chronicler.Ingest.Once.{new_session, ingest_all}

abbrev to_json : Event → String
to_json e = event_type e.p

abbrev upsert_bare : ℕ → Dict ℕ (Option ℕ) → Dict ℕ (Option ℕ)
upsert_bare i characters = if has_key i characters then characters else put i none characters

abbrev transport : Transport
transport = record {
  payload_participants_first = true;
  has_scheduler = true;
  has_on_death_schedule_skipped = true;
  has_on_ingested = true;
}

abbrev arrival : Payload → Bool → Arrival
arrival p gate = record {
  event = record { v = 1; d = "1066.9.15"; c = 7; p = p };
  event_date_iso = some "1066-09-15";
  wall_clock_at = "now";
  raw_line = "line";
  scope_participants = (9, "killer") ∷ (8, "heir") ∷ [];
  should_schedule_death = gate;
}

abbrev killed : Payload
killed = death (record { killer = some 9; cause = none; death_age = some 40 })

abbrev arrivals : List Arrival
arrivals = arrival killed true ∷ arrival birth true ∷ arrival killed true ∷ []

scheduled_once : (ingest_all to_json upsert_bare transport arrivals new_session).scheduled ≡ 7 ∷ []
unfolding ingest_event after_insert follow_up insert_event_idempotent insert_participants
    merge_participants dedupe upsert_all get put member event_type
scheduled_once = refl

both_participants :
    map
      (λ p. p.1.0)
      (ingest_all to_json upsert_bare transport
        (arrival killed true ∷ [])
        new_session).event_participants
    ≡ 8 ∷ 9 ∷ []
unfolding ingest_event after_insert follow_up insert_event_idempotent insert_participants
    merge_participants dedupe upsert_all get put member event_type
both_participants = refl
