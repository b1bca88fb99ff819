-- ===== src/Parse/Titles.antt =====
-- src/chronicler/save/parse.py and the tiers of src/chronicler/save/snapshot.py: the titles of a save.
use ck3_llm_chronicler.Base.{
  ℕ, zero, suc, ◌+◌, String, Text, codes, Bool, true, false, List, [], ◌∷◌, Option, none, some,
  if◌then◌else◌, ◌≡?◌, nat_order, text_order, list_order, Dict, get, put, member, has_key, length,
  filter_map,
}
use ck3_llm_chronicler.Snapshot.{TitleSnapshot}
use ck3_llm_chronicler.Parse.Json.{
  Fields, field, as_fields, as_items, as_text, int_field, ids_of, coerce_int, iter_db_records,
}
use ck3_llm_chronicler.Parse.Tables.{clean_name}
use ck3_llm_chronicler.Parse.Index.{add_to}

infixl 20 ◌>>=◌
abbrev pub ◌>>=◌ : {A B : Type 0} → Option A → (A → Option B) → Option B
none >>= f = none
some a >>= f = f a

abbrev pub tier_prefix_map : Dict Text String
tier_prefix_map =
    (codes "b_", "barony")
    ∷ (codes "c_", "county")
    ∷ (codes "d_", "duchy")
    ∷ (codes "k_", "kingdom")
    ∷ (codes "e_", "empire")
    ∷ []

abbrev pub first_two : Text → Text
first_two [] = []
first_two (a ∷ []) = a ∷ []
first_two (a ∷ b ∷ s) = a ∷ b ∷ []

-- A key of fewer than two characters, or without `_` in second place, is no prefix of the map.
unfoldable pub tier_from_key : String → String
unfolding get
tier_from_key key = elim (get (first_two (codes key)) tier_prefix_map) [
  | none ↦ "other"
  | some tier ↦ tier
]

abbrev pub tier_demote : Dict String String
tier_demote =
    ("empire", "kingdom") ∷ ("kingdom", "duchy") ∷ ("duchy", "county") ∷ ("county", "barony") ∷ []

abbrev pub tier_promote : Dict String String
tier_promote =
    ("barony", "county")
    ∷ ("county", "duchy")
    ∷ ("duchy", "kingdom")
    ∷ ("kingdom", "empire")
    ∷ ("empire", "empire")
    ∷ []

abbrev pub tier_descending : List String
tier_descending = "empire" ∷ "kingdom" ∷ "duchy" ∷ "county" ∷ "barony" ∷ []

-- A record of the first pass, with the key that this pass has read.
pub record RawTitle : Type 0 where
  pub key : String
  pub raw : Fields

abbrev pub Raws : Type 0
Raws = Dict ℕ RawTitle

abbrev pub Memo : Type 0
Memo = Dict ℕ String

-- The tier above the first of the tiers that is among those of the vassals.
abbrev pub promoted : List String → List String → Option String
promoted vassal_tiers [] = none
promoted vassal_tiers (t ∷ ts) =
    let rest = promoted vassal_tiers ts in
    if member t vassal_tiers then get t tier_promote else rest

abbrev pub settle : ℕ → Memo → Option String → Option (String × Memo)
settle tid memo none = some ("other", put tid "other" memo)
settle tid memo (some tier) = some (tier, put tid tier memo)

-- The id, where it is one of a record.
abbrev pub known : Raws → ℕ → Option ℕ
known raws k = if has_key k raws then some k else none

abbrev pub known_parent : Raws → Fields → Option ℕ
known_parent raws raw = elim (int_field "de_jure_liege" raw) [ none ↦ none | some k ↦ known raws k ]

abbrev pub known_vassals : Raws → Fields → List ℕ
known_vassals raws raw = filter_map (known raws) (ids_of (as_items (field "de_jure_vassals" raw)))

-- The tiers of the vassals; `infer` is the recursive call.
abbrev pub tiers_of :
    (ℕ → Memo → Option (String × Memo)) → List ℕ → Memo → Option (List String × Memo)
tiers_of infer [] memo = some ([], memo)
tiers_of infer (v ∷ vs) memo =
    infer v memo >>= λ r. tiers_of infer vs r.1 >>= λ rest. some (r.0 ∷ rest.0, rest.1)

abbrev pub by_vassals :
    (ℕ → Memo → Option (String × Memo)) → Raws → ℕ → Fields → Memo → Option (String × Memo)
by_vassals infer raws tid raw memo = tiers_of infer (known_vassals raws raw) memo >>= λ r.
    settle tid r.1 (promoted r.0 tier_descending)

-- One tier below the liege's, or else the way by the vassals.
abbrev pub below_liege :
    (ℕ → Memo → Option (String × Memo))
    → Raws
    → ℕ
    → Fields
    → Option String
    → Memo
    → Option (String × Memo)
below_liege infer raws tid raw none memo = by_vassals infer raws tid raw memo
below_liege infer raws tid raw (some demoted) memo = some (demoted, put tid demoted memo)

abbrev pub by_liege :
    (ℕ → Memo → Option (String × Memo))
    → Raws
    → ℕ
    → Fields
    → Option ℕ
    → Memo
    → Option (String × Memo)
by_liege infer raws tid raw none memo = by_vassals infer raws tid raw memo
by_liege infer raws tid raw (some parent) memo =
    infer parent memo >>= λ r. below_liege infer raws tid raw (get r.0 tier_demote) r.1

-- By the key, unless that is `other`.
abbrev pub by_key :
    (ℕ → Memo → Option (String × Memo)) → Raws → ℕ → RawTitle → Bool → Memo → Option (String × Memo)
by_key infer raws tid title false memo =
    let base = tier_from_key title.key in some (base, put tid base memo)
by_key infer raws tid title true memo =
    by_liege infer raws tid title.raw (known_parent raws title.raw) memo

abbrev pub infer_known :
    (ℕ → Memo → Option (String × Memo)) → Raws → ℕ → Option RawTitle → Memo → Option (String × Memo)
infer_known infer raws tid none memo = some ("other", memo)
infer_known infer raws tid (some title) memo =
    by_key infer raws tid title (tier_from_key title.key ≡? "other") memo

-- `inflight` is passed down in place of the shared set, which holds `tid` during its call only. The
-- calls are nested at most as deep as there are records, which is the fuel.
unfoldable pub infer_tier_for_title : ℕ → Raws → ℕ → List ℕ → Memo → Option (String × Memo)
unfolding get put member tier_from_key field coerce_int
infer_tier_for_title zero raws tid inflight memo = none
infer_tier_for_title (suc fuel) raws tid inflight memo = elim (get tid memo) [
  | some tier ↦ some (tier, memo)
  | none ↦ elim (member tid inflight) [
    | true ↦ some ("other", memo)
    | false ↦
        infer_known (λ k. infer_tier_for_title fuel raws k (tid ∷ inflight)) raws tid (get tid raws)
          memo
  ]
]

-- The first pass: the records with a key, by their ids.
abbrev pub collect : List (ℕ × Fields) → Raws → Raws
collect [] raws = raws
collect ((tid, raw) ∷ rows) raws = collect rows (elim (as_text (field "key" raw)) [
  | none ↦ raws
  | some key ↦ put tid (record { key = key; raw = raw }) raws
])

-- `landed_titles.landed_titles`
unfoldable pub collect_raws : Fields → Raws
unfolding iter_db_records put field
collect_raws data_fields =
    collect (iter_db_records data_fields ("landed_titles" ∷ "landed_titles" ∷ [])) []

module _ (strip_loca_markup : Option String → Option String) where
  abbrev pub title_of : ℕ → RawTitle → String → TitleSnapshot
  title_of tid title tier = record {
    title_id = tid;
    key = title.key;
    name =
        clean_name strip_loca_markup (field "name" (as_fields (field "title_name_data" title.raw)));
    tier = tier;
    holder_id = int_field "holder" title.raw;
    de_jure_liege_id = int_field "de_jure_liege" title.raw;
  }

  -- The second pass, with the memo that its rounds share.
  unfoldable pub title_rows : Raws → List (ℕ × RawTitle) → Memo → Option (Dict ℕ TitleSnapshot)
  unfolding infer_tier_for_title field coerce_int
  title_rows raws [] memo = some []
  title_rows raws ((tid, title) ∷ rest) memo =
      infer_tier_for_title (length raws + 1) raws tid [] memo >>= λ r.
      title_rows raws rest r.1 >>= λ rows. some ((tid, title_of tid title r.0) ∷ rows)

  unfoldable pub parse_titles : Fields → Option (Dict ℕ TitleSnapshot)
  unfolding collect_raws title_rows
  parse_titles data_fields = let raws = collect_raws data_fields in title_rows raws raws []

-- `holders.setdefault(t.holder_id, set()).add(tid)` over the titles that are held
unfoldable pub add_holders : Dict ℕ TitleSnapshot → Dict ℕ (List ℕ) → Dict ℕ (List ℕ)
unfolding add_to
add_holders [] holders = holders
add_holders ((tid, t) ∷ titles) holders =
    add_holders titles
      (elim t.holder_id [ none ↦ holders | some holder ↦ add_to holder tid holders ])

unfoldable pub build_title_holders : Dict ℕ TitleSnapshot → Dict ℕ (List ℕ)
unfolding add_holders
build_title_holders titles = add_holders titles []

-- The walk from a title up its lieges to an empire. It visits no title twice, so its rounds are at most
-- as many as the titles, which is the fuel.
unfoldable pub empire_above :
    ℕ → Dict ℕ TitleSnapshot → Option TitleSnapshot → List ℕ → Option (Option ℕ)
unfolding get member
empire_above zero titles current seen = none
empire_above (suc fuel) titles none seen = some none
empire_above (suc fuel) titles (some t) seen = elim (member t.title_id seen) [
  | true ↦ some none
  | false ↦ elim (t.tier ≡? "empire") [
    | true ↦ some (some t.title_id)
    | false ↦ elim t.de_jure_liege_id [
      | none ↦ some none
      | some liege ↦ empire_above fuel titles (get liege titles) (t.title_id ∷ seen)
    ]
  ]
]

abbrev pub add_kingdom : ℕ → Option ℕ → Dict ℕ (List ℕ) → Dict ℕ (List ℕ)
add_kingdom tid none by_empire = by_empire
add_kingdom tid (some empire) by_empire = add_to empire tid by_empire

unfoldable pub add_kingdoms :
    Dict ℕ TitleSnapshot → List (ℕ × TitleSnapshot) → Dict ℕ (List ℕ) → Option (Dict ℕ (List ℕ))
unfolding empire_above add_to
add_kingdoms titles [] by_empire = some by_empire
add_kingdoms titles ((tid, t) ∷ rest) by_empire =
    (if t.tier ≡? "kingdom" then empire_above (length titles + 2) titles (some t) [] else some none)
    >>= λ empire. add_kingdoms titles rest (add_kingdom tid empire by_empire)

unfoldable pub build_kingdoms_by_de_jure_empire : Dict ℕ TitleSnapshot → Option (Dict ℕ (List ℕ))
unfolding add_kingdoms
build_kingdoms_by_de_jure_empire titles = add_kingdoms titles titles []
