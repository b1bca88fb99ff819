-- ===== src/Clusters.antt =====
-- src/chronicler/narrative/clusters.py: `detect_death_clusters`. Parsing JSON and counting days are
-- the standard library's, and parameters: `loads` gives the payload of a text that holds a JSON
-- object, and `fromisoformat` the number of the day of a valid ISO date. The text block that renders
-- the clusters is not modelled.
pub mod Runs
use ck3_llm_chronicler.Base.{
  ℕ, ◌+◌, ◌-◌, String, Bool, true, false, List, [], ◌∷◌, ◌++◌, map, Option, none, some,
  if◌then◌else◌, ltb, leb, ◌≡?◌, text_order, nat_order, length, filter_map, sort_by,
}

abbrev pub death_cluster_min_count : ℕ
death_cluster_min_count = 3

abbrev pub death_cluster_window_days : ℕ
death_cluster_window_days = 30

-- What the scan reads of a stored event.
pub record StoredEvent : Type 0 where
  pub event_type : String
  pub event_date : String
  pub event_date_iso : Option String
  pub payload_json : String

-- What the scan reads of a payload.
pub record MemoryFields : Type 0 where
  pub memory_type : Option String
  pub deceased_first_name : Option String
  pub deceased_age : Option ℕ
  pub deceased_cause : Option String

pub record ClusterDeath : Type 0 where
  pub date : String
  pub first_name : Option String
  pub age : Option ℕ
  pub cause : Option String

pub record DeathCluster : Type 0 where
  pub start_date : String
  pub end_date : String
  pub deaths : List ClusterDeath

-- A parsed day, its event and its payload.
pub record Candidate : Type 0 where
  pub day : ℕ
  pub event : StoredEvent
  pub payload : MemoryFields

module _ (loads : String → Option MemoryFields) (fromisoformat : String → Option ℕ) where
  dated_candidate : StoredEvent → MemoryFields → Option ℕ → Option Candidate
  dated_candidate e p none = none
  dated_candidate e p (some day) = some (record { day = day; event = e; payload = p })

  died_candidate : StoredEvent → String → Option MemoryFields → Option Candidate
  died_candidate e iso none = none
  died_candidate e iso (some p) = elim p.memory_type [
    | none ↦ none
    | some type ↦ if type ≡? "relative_died" then dated_candidate e p (fromisoformat iso) else none
  ]

  iso_candidate : StoredEvent → Option String → Option Candidate
  iso_candidate e none = none
  iso_candidate e (some iso) = died_candidate e iso (loads e.payload_json)

  -- An event of a relative's death with a date that parses.
  unfoldable pub candidate : StoredEvent → Option Candidate
  unfolding dated_candidate died_candidate iso_candidate
  candidate e = if e.event_type ≡? "vanilla_memory" then iso_candidate e e.event_date_iso else none

abbrev pub day_of : Candidate → ℕ
day_of c = c.day

-- The day of the last entry.
abbrev pub last_day : List Candidate → ℕ
last_day [] = 0
last_day (c ∷ []) = c.day
last_day (c ∷ d ∷ cs) = last_day (d ∷ cs)

-- The entry joins the current group: the group is empty, or its last day is near.
abbrev pub joins : ℕ → List Candidate → Candidate → Bool
joins window_days [] entry = true
joins window_days (c ∷ cs) entry = leb (entry.day - last_day (c ∷ cs)) window_days

-- The loop: the groups in the order in which they are closed, the last one after the loop.
unfoldable pub scan : ℕ → List Candidate → List Candidate → List (List Candidate)
scan window_days current [] = current ∷ []
scan window_days current (entry ∷ rest) =
    let near = joins window_days current entry in
    let later = scan window_days (if near then current ++ (entry ∷ []) else entry ∷ []) rest in
    if near then later else current ∷ later

abbrev death_of : Candidate → ClusterDeath
death_of c = record {
  date = c.event.event_date;
  first_name = c.payload.deceased_first_name;
  age = c.payload.deceased_age;
  cause = c.payload.deceased_cause;
}

abbrev last_event : Candidate → List Candidate → StoredEvent
last_event c [] = c.event
last_event c (d ∷ ds) = last_event d ds

abbrev pub cluster_of : Candidate → List Candidate → DeathCluster
cluster_of c cs = record {
  start_date = c.event.event_date;
  end_date = (last_event c cs).event_date;
  deaths = map death_of (c ∷ cs);
}

-- `_close`: nothing for a group that is too small; `group[0]` fails on an empty group.
unfoldable pub close : ℕ → List Candidate → Option (List DeathCluster)
close min_count [] = if ltb 0 min_count then some [] else none
close min_count (c ∷ cs) =
    some (if ltb (length (c ∷ cs)) min_count then [] else cluster_of c cs ∷ [])

abbrev append_found :
    Option (List DeathCluster) → Option (List DeathCluster) → Option (List DeathCluster)
append_found none later = none
append_found (some found) none = none
append_found (some found) (some later) = some (found ++ later)

-- The clusters of the closed groups; none is an `IndexError`.
unfoldable pub close_all : ℕ → List (List Candidate) → Option (List DeathCluster)
close_all min_count [] = some []
close_all min_count (group ∷ groups) =
    append_found (close min_count group) (close_all min_count groups)

unfoldable pub detect_death_clusters :
    (String → Option MemoryFields)
    → (String → Option ℕ)
    → ℕ
    → ℕ
    → List StoredEvent
    → Option (List DeathCluster)
detect_death_clusters loads fromisoformat min_count window_days events =
    let candidates = sort_by day_of (filter_map (candidate loads fromisoformat) events) in
    close_all min_count (scan window_days [] candidates)
