-- ===== src/Parse/People.antt =====
-- src/chronicler/save/parse.py: families, memories, alliances and the lookups of names. Where the code
-- calls `get` on what is no dict, it raises, and nothing is returned here. What `str` makes of a value
-- that is no text is a parameter.
use ck3_llm_chronicler.Base.{
  ℕ, String, Bool, true, false, not, List, [], ◌∷◌, Option, none, some, if◌then◌else◌, ◌==◌, ◌≡?◌,
  nat_order, text_order, Dict, put, filter_map,
}
use ck3_llm_chronicler.Snapshot.{FamilySnapshot, MemorySnapshot}
use ck3_llm_chronicler.Parse.Json.{
  Value, null, bool, int, fixed, str, array, dict, no_values, value_and, Fields, no_fields,
  field_and, field, as_fields, as_items, as_text, as_dict, int_field, as_int_tuple, coerce_int,
  fields_of, iter_db_records, opt_str,
}
use ck3_llm_chronicler.Parse.Index.{add_to}
use ck3_llm_chronicler.Parse.Titles.{◌>>=◌}

unfoldable pub parse_family : Value → FamilySnapshot
unfolding field coerce_int as_int_tuple
parse_family value =
    let raw = as_fields value in
    record {
      mother = int_field "mother" raw;
      father = int_field "father" raw;
      primary_spouse = int_field "primary_spouse" raw;
      spouses = as_int_tuple (field "spouse" raw);
      former_spouses = as_int_tuple (field "former_spouses" raw);
      concubinist = int_field "concubinist" raw;
      concubines = as_int_tuple (field "concubine" raw);
      children = as_int_tuple (field "child" raw);
      betrothed = as_int_tuple (field "betrothed" raw);
    }

-- `key in raw`
unfoldable pub has_field : String → Fields → Bool
has_field key no_fields = false
has_field key (field_and k v fs) = let rest = has_field key fs in if key ≡? k then true else rest

-- What `if value` takes for true.
abbrev pub is_truthy : Value → Bool
is_truthy null = false
is_truthy (bool b) = b
is_truthy (int n) = not (n == 0)
is_truthy (fixed n) = not (n == 0)
is_truthy (str s) = not (s ≡? "")
is_truthy (array no_values) = false
is_truthy (array (value_and v vs)) = true
is_truthy (dict no_fields) = false
is_truthy (dict (field_and k v fs)) = true

-- `(value or {})` before a `get`: another value than a dict raises, unless it is false.
abbrev pub or_empty : Value → Option Fields
or_empty value = elim (as_dict value) [
  | some fs ↦ some fs
  | none ↦ if is_truthy value then none else some no_fields
]

abbrev pub participant_entry : String × Value → Option (String × ℕ)
participant_entry (role, value) = elim (coerce_int value) [
  | none ↦ none
  | some cid ↦ some (role, cid)
]

module _ (print_value : Value → String) where
  -- `str(value)`
  abbrev pub str_of : Value → String
  str_of (str s) = s
  str_of null = print_value null
  str_of (bool b) = print_value (bool b)
  str_of (int n) = print_value (int n)
  str_of (fixed n) = print_value (fixed n)
  str_of (array vs) = print_value (array vs)
  str_of (dict fs) = print_value (dict fs)

  -- `str(raw.get(key, ""))`
  abbrev pub str_field : String → Fields → String
  str_field key raw = if has_field key raw then str_of (field key raw) else ""

  unfoldable pub parse_memory : ℕ → Fields → MemorySnapshot
  unfolding field has_field coerce_int
  parse_memory memory_id raw = record {
    memory_id = memory_id;
    memory_type = str_field "type" raw;
    creation_date = str_field "creation_date" raw;
    end_date = if has_field "end_date" raw then some (str_of (field "end_date" raw)) else none;
    participants = filter_map participant_entry (fields_of (as_fields (field "participants" raw)));
  }

  abbrev pub memory_entry : String × Value → Option (ℕ × MemorySnapshot)
  memory_entry (raw_id, raw) =
      coerce_int (str raw_id) >>= λ cid. as_dict raw >>= λ fs. some (cid, parse_memory cid fs)

  abbrev pub put_all : {A : Type 0} → List (ℕ × A) → Dict ℕ A → Dict ℕ A
  put_all [] out = out
  put_all ((k, v) ∷ rest) out = put_all rest (put k v out)

  unfoldable pub build_memory_index : Value → Dict ℕ MemorySnapshot
  unfolding coerce_int parse_memory put
  build_memory_index memory_db =
      put_all (filter_map memory_entry (fields_of (as_fields memory_db))) []

-- The names of the records of a table, by `name` or else by another key.
abbrev pub either_field : String → String → Fields → Value
either_field first second raw =
    if is_truthy (field first raw) then field first raw else field second raw

abbrev pub name_entry : String → String → String × Value → Option (ℕ × String)
name_entry first second (raw_id, raw) = as_dict raw >>= λ fs. coerce_int (str raw_id) >>= λ cid.
    as_text (either_field first second fs) >>= λ name. some (cid, name)

abbrev pub put_names : List (ℕ × String) → Dict ℕ String → Dict ℕ String
put_names [] out = out
put_names ((k, v) ∷ rest) out = put_names rest (put k v out)

unfoldable pub parse_cultures_lookup : Fields → Option (Dict ℕ String)
unfolding field coerce_int put
parse_cultures_lookup data_fields = or_empty (field "culture_manager" data_fields) >>= λ manager.
    some (
      put_names
        (filter_map (name_entry "name" "culture_template")
          (fields_of (as_fields (field "cultures" manager))))
        [])

unfoldable pub parse_faiths_lookup : Fields → Option (Dict ℕ String)
unfolding field coerce_int put
parse_faiths_lookup data_fields = or_empty (field "religion" data_fields) >>= λ religion. some (
    put_names
      (filter_map (name_entry "faith_type" "tag") (fields_of (as_fields (field "faiths" religion))))
      [])

abbrev pub first_text : List String → Fields → Option String
first_text [] raw = none
first_text (key ∷ keys) raw = elim (opt_str raw key) [
  | some name ↦ some name
  | none ↦ first_text keys raw
]

unfoldable pub resolve_dynasty_or_house_name : Fields → Option String
unfolding opt_str
resolve_dynasty_or_house_name raw =
    first_text ("localized_name" ∷ "custom_name" ∷ "name" ∷ "key" ∷ []) raw

abbrev pub put_found : {A : Type 0} → ℕ → Option A → Dict ℕ A → Dict ℕ A
put_found k none d = d
put_found k (some v) d = put k v d

abbrev pub add_houses : List (ℕ × Fields) → Dict ℕ String × Dict ℕ ℕ → Dict ℕ String × Dict ℕ ℕ
add_houses [] tables = tables
add_houses ((hid, raw) ∷ rows) tables = add_houses rows (
  put_found hid (resolve_dynasty_or_house_name raw) tables.0,
  put_found hid (int_field "dynasty" raw) tables.1,
)

-- The names of the houses, and the dynasty of each.
unfoldable pub parse_houses : Fields → Dict ℕ String × Dict ℕ ℕ
unfolding iter_db_records resolve_dynasty_or_house_name field coerce_int put
parse_houses data_fields =
    add_houses (iter_db_records data_fields ("dynasties" ∷ "dynasty_house" ∷ [])) ([], [])

-- The two parties of a relation that carries an alliance.
abbrev pub allied : Value → Option (ℕ × ℕ)
allied rel = as_dict rel >>= λ fs. (if has_field "alliances" fs then some fs else none) >>= λ known.
    int_field "first" known >>= λ a. int_field "second" known >>= λ b. some (a, b)

abbrev pub add_pairs : List (ℕ × ℕ) → Dict ℕ (List ℕ) → Dict ℕ (List ℕ)
add_pairs [] builder = builder
add_pairs ((a, b) ∷ rest) builder = add_pairs rest (add_to b a (add_to a b builder))

unfoldable pub parse_alliances : Fields → Option (Dict ℕ (List ℕ))
unfolding field has_field coerce_int add_to
parse_alliances data_fields = or_empty (field "relations" data_fields) >>= λ relations.
    some (add_pairs (filter_map allied (as_items (field "active_relations" relations))) [])
