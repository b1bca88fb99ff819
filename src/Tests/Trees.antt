-- ===== src/Tests/Trees.antt =====
-- Trees of saves, as rakaly writes them.
use ck3_llm_chronicler.Base.{
  put, ℕ, String, true, List, [], ◌∷◌, Option, none, some, nat_order, text_order, pair_order, Dict,
  get, member, Distinct, IsSorted, ◌≡◌, refl, map,
}
use ck3_llm_chronicler.Snapshot.{TitleSnapshot, SaveSnapshot}
use ck3_llm_chronicler.Diff.Types.{DiffEvent, ok}
use ck3_llm_chronicler.Diff.Titles.{titles_scan}
use ck3_llm_chronicler.Diff.Snapshots.{sort_key, diff_snapshots}
use ck3_llm_chronicler.Tests.Saves.{empty_save}
use ck3_llm_chronicler.Parse.Json.{
  Value, int, str, array, dict, no_values, value_and, Fields, no_fields, field_and, field, node_at,
  iter_db_records, coerce_int, int_of_text, read_digits,
}
use ck3_llm_chronicler.Parse.Index.{lists, build_table, add_to}
use ck3_llm_chronicler.Parse.Tables.{
  parse_wars, make_war, parse_activities, parse_contracts, parse_court_positions,
  parse_war_side_participants,
}
use ck3_llm_chronicler.Parse.People.{parse_alliances, has_field}
use ck3_llm_chronicler.Parse.Alliances.{parse_alliances_symmetric}
use ck3_llm_chronicler.Parse.Agree.{
  Agrees, war_owners, activity_owners, contract_owners, court_position_owners, tables_agree,
}
use ck3_llm_chronicler.Parse.Titles.{
  parse_titles, collect_raws, title_rows, infer_tier_for_title, tier_from_key, build_title_holders,
  add_holders, build_kingdoms_by_de_jure_empire,
}
use ck3_llm_chronicler.Parse.Total.{Follow, parse_titles_total}
use ck3_llm_chronicler.Parse.Holders.{build_title_holders-scan, parsed_diff_total}
use ck3_llm_chronicler.Parse.Kingdoms.{IsKeyed, items-IsKeyed, AllBelong, build_kingdoms_total}

abbrev keep : Option String → Option String
keep name = name

-- A kingdom made by decision, below an empire, and two scripted titles in a cycle.
abbrev titles_tree : Fields
titles_tree =
    field_and "landed_titles"
      (dict (
        field_and "landed_titles"
          (dict (
            field_and "1"
              (dict (field_and "key" (str "e_empire") (field_and "holder" (int 7) no_fields)))
              (field_and "2"
                (dict (
                  field_and "key" (str "x_script_5")
                    (field_and "holder" (int 7) (field_and "de_jure_liege" (int 1) no_fields))))
                (field_and "3" (str "none") (
                  field_and "4"
                    (dict
                      (field_and "key" (str "x_a") (field_and "de_jure_liege" (int 5) no_fields)))
                    (field_and "5"
                      (dict
                        (field_and "key" (str "x_b") (field_and "de_jure_liege" (int 4) no_fields)))
                      no_fields))))))
          no_fields))
      no_fields

tier_at : ℕ → Option (Dict ℕ TitleSnapshot) → Option String
tier_at k none = none
tier_at k (some titles) = elim (get k titles) [ none ↦ none | some t ↦ some t.tier ]

parsed_tiers :
    (tier_at 1 (parse_titles keep titles_tree) ≡ some "empire")
    × (tier_at 2 (parse_titles keep titles_tree) ≡ some "kingdom")
    × (tier_at 3 (parse_titles keep titles_tree) ≡ none)
    × (tier_at 4 (parse_titles keep titles_tree) ≡ some "other")
unfolding tier_at parse_titles collect_raws title_rows infer_tier_for_title tier_from_key
    iter_db_records field node_at coerce_int int_of_text read_digits get
parsed_tiers = (refl, refl, refl, refl)

parse_titles_total_example :
    (out : Dict ℕ TitleSnapshot) × (parse_titles keep titles_tree ≡ some out)
    × Follow (collect_raws titles_tree) keep (collect_raws titles_tree) out
parse_titles_total_example = parse_titles_total keep titles_tree

abbrev participants : Value
participants = dict (
    field_and "participants"
      (array (
        value_and (dict (field_and "character" (int 7) no_fields))
          (value_and (str "none") no_values)))
      no_fields)

abbrev wars_tree : Fields
wars_tree =
    field_and "wars"
      (dict (
        field_and "active_wars"
          (dict (
            field_and "30" (dict (field_and "attacker" participants no_fields))
              (field_and "31" (dict (field_and "defender" participants no_fields)) no_fields)))
          no_fields))
      no_fields

wars_of_7 : lists 7 31 (parse_wars wars_tree).1 ≡ true
unfolding parse_wars make_war parse_war_side_participants build_table add_to iter_db_records field
    node_at coerce_int int_of_text read_digits get member
wars_of_7 = refl

wars-Distinct : Distinct (map (λ r. r.0) (iter_db_records wars_tree ("wars" ∷ "active_wars" ∷ [])))
unfolding iter_db_records field node_at coerce_int int_of_text read_digits member
wars-Distinct = (refl, (refl, tt))

tables_agree_example :
    Agrees war_owners (parse_wars wars_tree)
    × Agrees activity_owners (parse_activities wars_tree)
    × Agrees contract_owners (parse_contracts wars_tree)
    × Agrees court_position_owners (parse_court_positions wars_tree)
unfolding iter_db_records field node_at
tables_agree_example = tables_agree wars_tree wars-Distinct tt tt tt

abbrev small_kingdom : TitleSnapshot
small_kingdom = record {
  title_id = 2;
  key = "k_small";
  name = none;
  tier = "kingdom";
  holder_id = some 7;
  de_jure_liege_id = some 1;
}

abbrev realm : Dict ℕ TitleSnapshot
realm =
    (
      1,
      record small_kingdom {
        title_id = 1;
        key = "e_large";
        tier = "empire";
        de_jure_liege_id = none;
      },
    )
    ∷ (2, small_kingdom)
    ∷ []

realm-IsKeyed : IsKeyed realm
realm-IsKeyed = items-IsKeyed realm (refl, (refl, tt))

build_title_holders-scan_example :
    lists 7 2 (build_title_holders realm) ≡ member 2 (titles_scan 7 realm)
build_title_holders-scan_example = build_title_holders-scan 7 2 realm

build_kingdoms_total_example :
    (by_empire : Dict ℕ (List ℕ)) × (build_kingdoms_by_de_jure_empire realm ≡ some by_empire)
    × AllBelong realm realm-IsKeyed by_empire
build_kingdoms_total_example = build_kingdoms_total realm realm-IsKeyed

abbrev indexed : String → SaveSnapshot
indexed date = record (empty_save date) { titles = realm; title_holders = (7, 2 ∷ 1 ∷ []) ∷ [] }

is_built : (7, 2 ∷ 1 ∷ []) ∷ [] ≡ build_title_holders realm
unfolding build_title_holders add_holders add_to get
is_built = refl

parsed_diff_total_example :
    (out : List DiffEvent) × (diff_snapshots keep (indexed "1066.1.1") (indexed "1067.1.1") none
      ≡ ok out)
    × IsSorted sort_key out
parsed_diff_total_example =
    parsed_diff_total keep (indexed "1066.1.1") (indexed "1067.1.1") none is_built is_built refl

abbrev relations_tree : Fields
relations_tree =
    field_and "relations"
      (dict (
        field_and "active_relations"
          (array (
            value_and
              (dict (
                field_and "first" (int 4)
                  (field_and "second" (int 9) (field_and "alliances" (array no_values) no_fields))))
              (value_and (dict (field_and "first" (int 5) (field_and "second" (int 6) no_fields)))
                no_values)))
          no_fields))
      no_fields

alliances_read : parse_alliances relations_tree ≡ some ((4, 9 ∷ []) ∷ (9, 4 ∷ []) ∷ [])
unfolding parse_alliances field has_field coerce_int add_to put get
alliances_read = refl

parse_alliances_symmetric_example :
    lists 4 9 ((4, 9 ∷ []) ∷ (9, 4 ∷ []) ∷ []) ≡ lists 9 4 ((4, 9 ∷ []) ∷ (9, 4 ∷ []) ∷ [])
parse_alliances_symmetric_example =
    parse_alliances_symmetric relations_tree ((4, 9 ∷ []) ∷ (9, 4 ∷ []) ∷ []) 4 9 alliances_read
