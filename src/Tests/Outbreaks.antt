-- ===== src/Tests/Outbreaks.antt =====
-- The theorem of the death clusters, on four deaths.
use ck3_llm_chronicler.Base.{
  ℕ, String, List, [], ◌∷◌, Option, none, some, ◌≡◌, arith, All, filter, filter_map, flat_map,
  sort_by, nat_order, text_order, ◌≡?◌, if◌then◌else◌,
}
use ck3_llm_chronicler.Clusters.{
  StoredEvent, MemoryFields, Candidate, candidate, day_of, detect_death_clusters,
}
use ck3_llm_chronicler.Clusters.Runs.{
  IsRun, IsSeparated, concat, group_cluster, is_large, detect_death_clusters_lem,
}

-- What stands for the parser of JSON here reads a name and nothing else.
abbrev loads : String → Option MemoryFields
loads text = some (record {
  memory_type = some "relative_died";
  deceased_first_name = some text;
  deceased_age = none;
  deceased_cause = none;
})

-- Four days that the test knows.
abbrev day_number : String → Option ℕ
day_number iso =
    if iso ≡? "1102-06-02"
    then some 402
    else if iso ≡? "1102-06-09"
    then some 409
    else if iso ≡? "1102-06-17"
    then some 417
    else if iso ≡? "1103-01-01"
    then some 615
    else none

abbrev death_on : String → String → StoredEvent
death_on name iso = record {
  event_type = "vanilla_memory";
  event_date = iso;
  event_date_iso = some iso;
  payload_json = name;
}

abbrev deaths : List StoredEvent
deaths =
    death_on "Ada" "1102-06-09"
    ∷ death_on "Otto" "1103-01-01"
    ∷ death_on "Emma" "1102-06-02"
    ∷ death_on "Hugh" "1102-06-17"
    ∷ []

detect_death_clusters_example :
    (groups : List (List Candidate)) × (concat groups
      ≡ sort_by day_of (filter_map (candidate loads day_number) deaths))
    × All (IsRun 30) groups
    × IsSeparated 30 groups
    × (detect_death_clusters loads day_number 3 30 deaths
        ≡ some (flat_map group_cluster (filter (is_large 3) groups)))
detect_death_clusters_example = detect_death_clusters_lem loads day_number 3 30 deaths (omega arith)
