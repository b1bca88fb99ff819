-- ===== src/Parse/Json.antt =====
-- src/chronicler/save/parse.py: the helpers that read the tree of a save, as rakaly writes it in JSON.
-- A number of the tree is a natural number, or a fixed-point one counted in hundred-thousandths; the
-- ids and amounts of a save are not negative. A dict is the list of its items.
use ck3_llm_chronicler.Base.{
  strip, ℕ, ◌+◌, ◌-◌, ◌*◌, ◌/◌, String, Text, codes, Bool, true, false, ◌&&◌, ◌||◌, List, [], ◌∷◌,
  Option, none, some, if◌then◌else◌, ◌==◌, ◌≡?◌, text_order, is_digit, filter_map,
}

mutual
  pub data Value : Type 0 where
    null : Value
    bool : Bool → Value
    int : ℕ → Value
    fixed : ℕ → Value
    str : String → Value
    array : Values → Value
    dict : Fields → Value

  pub data Values : Type 0 where
    no_values : Values
    value_and : Value → Values → Values

  pub data Fields : Type 0 where
    no_fields : Fields
    field_and : String → Value → Fields → Fields

abbrev pub items_of : Values → List Value
items_of no_values = []
items_of (value_and v vs) = v ∷ items_of vs

abbrev pub fields_of : Fields → List (String × Value)
fields_of no_fields = []
fields_of (field_and k v fs) = (k, v) ∷ fields_of fs

-- `raw.get(key)`
unfoldable pub field : String → Fields → Value
field key no_fields = null
field key (field_and k v fs) = let rest = field key fs in if key ≡? k then v else rest

-- `v if isinstance(v, dict) else {}`
abbrev pub as_fields : Value → Fields
as_fields (dict fs) = fs
as_fields null = no_fields
as_fields (bool b) = no_fields
as_fields (int n) = no_fields
as_fields (fixed n) = no_fields
as_fields (str s) = no_fields
as_fields (array vs) = no_fields

-- `v if isinstance(v, list) else []`
abbrev pub as_items : Value → List Value
as_items (array vs) = items_of vs
as_items null = []
as_items (bool b) = []
as_items (int n) = []
as_items (fixed n) = []
as_items (str s) = []
as_items (dict fs) = []

-- `v` where it is a text that is not empty
abbrev pub as_text : Value → Option String
as_text (str s) = if s ≡? "" then none else some s
as_text null = none
as_text (bool b) = none
as_text (int n) = none
as_text (fixed n) = none
as_text (array vs) = none
as_text (dict fs) = none

abbrev pub as_dict : Value → Option Fields
as_dict (dict fs) = some fs
as_dict null = none
as_dict (bool b) = none
as_dict (int n) = none
as_dict (fixed n) = none
as_dict (str s) = none
as_dict (array vs) = none

-- Digits, with single underscores between them: `digit` says whether a digit stands before.
unfoldable pub read_digits : Bool → ℕ → Text → Option ℕ
unfolding is_digit
read_digits digit n [] = if digit then some n else none
read_digits digit n (c ∷ s) =
    let d : Bool = is_digit c in
    let rest = read_digits d (if d then n * 10 + (c - b'0') else n) s in
    if d || ((c == b'_') && digit) then rest else none

abbrev pub skip_plus : Text → Text
skip_plus [] = []
skip_plus (c ∷ s) = if c == b'+' then s else c ∷ s

-- `int(s)`, or nothing where it raises
unfoldable pub int_of_text : String → Option ℕ
unfolding strip read_digits
int_of_text s = read_digits false 0 (skip_plus (strip (codes s)))

unfoldable pub coerce_int : Value → Option ℕ
unfolding int_of_text
coerce_int null = none
coerce_int (bool true) = some 1
coerce_int (bool false) = some 0
coerce_int (int n) = some n
coerce_int (fixed n) = some (n / 100000)
coerce_int (str s) = int_of_text s
coerce_int (array vs) = none
coerce_int (dict fs) = none

abbrev pub int_field : String → Fields → Option ℕ
int_field key raw = coerce_int (field key raw)

-- The ids of a list, without the entries that are none.
abbrev pub ids_of : List Value → List ℕ
ids_of vs = filter_map coerce_int vs

abbrev pub to_ids : Option ℕ → List ℕ
to_ids none = []
to_ids (some n) = n ∷ []

unfoldable pub as_int_tuple : Value → List ℕ
unfolding coerce_int
as_int_tuple (array vs) = ids_of (items_of vs)
as_int_tuple null = []
as_int_tuple (bool b) = to_ids (coerce_int (bool b))
as_int_tuple (int n) = n ∷ []
as_int_tuple (fixed n) = to_ids (coerce_int (fixed n))
as_int_tuple (str s) = to_ids (coerce_int (str s))
as_int_tuple (dict fs) = []

unfoldable pub opt_str : Fields → String → Option String
unfolding field
opt_str raw key = as_text (field key raw)

-- The table at the end of a path: a node that is missing or no dict leaves nothing.
unfoldable pub node_at : List String → Fields → Fields
unfolding field
node_at [] data_fields = data_fields
node_at (key ∷ path) data_fields = node_at path (as_fields (field key data_fields))

abbrev pub record_of : String × Value → Option (ℕ × Fields)
record_of (raw_id, raw) = elim (as_dict raw) [
  | none ↦ none
  | some fs ↦ elim (coerce_int (str raw_id)) [ none ↦ none | some rid ↦ some (rid, fs) ]
]

-- The records of a table, with their ids.
unfoldable pub iter_db_records : Fields → List String → List (ℕ × Fields)
unfolding node_at coerce_int
iter_db_records data_fields path = filter_map record_of (fields_of (node_at path data_fields))
