-- ===== src/Parse/Agree.antt =====
-- src/chronicler/save/parse.py: the index of a table by character agrees with its records.
use ck3_llm_chronicler.Base.{
  ℕ, String, Bool, true, false, ◌++◌, List, [], ◌∷◌, map, Option, none, some, ◌≡?◌, nat_order, Dict,
  get, get-put, member, Distinct, ◌≡◌, ◌∙◌, refl, ap, arith, inl, inr, Bool-cases, Option-cases,
  eq_of_≡?, ≡?_refl, sym, subst,
}
use ck3_llm_chronicler.Snapshot.{
  WarSnapshot, ActivitySnapshot, ContractSnapshot, CourtPositionSnapshot,
}
use ck3_llm_chronicler.Parse.Json.{Fields, to_ids, iter_db_records, int_field, opt_str}
use ck3_llm_chronicler.Parse.Index.{
  lists, add_to_all_lem, Made, Tables, add_row, build_from, build_table,
}
use ck3_llm_chronicler.Parse.Tables.{
  make_war, parse_wars, make_activity, parse_activities, make_contract, parse_contracts,
  make_court_position, parse_court_positions,
}

module _ {A : Type 0} (owners : A → List ℕ) where
  abbrev pub owned : ℕ → Option A → Bool
  owned c none = false
  owned c (some a) = member c (owners a)

  -- A record is listed for a character exactly when it names the character.
  abbrev pub Agrees : Tables A → Type 0
  Agrees t = (c i : ℕ) → lists c i t.1 ≡ owned c (get i t.0)

  abbrev ids : List (ℕ × Fields) → List ℕ
  ids rows = map (λ r. r.0) rows

  -- What is made of a record is listed for its owners.
  abbrev Listed : Made A → Type 0
  Listed none = Unit
  Listed (some (a, cids)) = cids ≡ owners a

  abbrev Fresh : List (ℕ × Fields) → Dict ℕ A → Type 0
  Fresh rows d = (i : ℕ) → member i (ids rows) ≡ true → get i d ≡ none

  add_row-Agrees :
      (rid : ℕ) (made : Made A) (t : Tables A)
      → Listed made
      → get rid t.0 ≡ none
      → Agrees t
      → Agrees (add_row rid made t)
  add_row-Agrees rid none t l f h c i = h c i
  add_row-Agrees rid (some (a, cids)) t l f h c i =
      add_to_all_lem cids rid c i t.1
      ∙ rw (get-put rid i a t.0) (elim (Bool-cases (i ≡? rid)) [
        | inl e ↦
            let none_there : lists c i t.1 ≡ false =
              h c i
              ∙ ap (owned c) (subst (λ (k : ℕ). get k t.0 ≡ none) (sym (eq_of_≡? i rid e)) f) in
            rw e (rw none_there (rw l (ground arith)))
        | inr e ↦ rw e (ground (arith, h c i))
      ])

  add_row-Fresh :
      (rid : ℕ) (made : Made A) (rows : List (ℕ × Fields)) (t : Tables A)
      → member rid (ids rows) ≡ false
      → Fresh rows t.0
      → Fresh rows (add_row rid made t).0
  add_row-Fresh rid none rows t m f i e = f i e
  add_row-Fresh rid (some (a, cids)) rows t m f i e =
      rw (get-put rid i a t.0) (elim (Bool-cases (i ≡? rid)) [
        | inl s ↦ absurd (
            let k : i ≡ rid = eq_of_≡? i rid s in
            let n : member i (ids rows) ≡ false = ap (λ (x : ℕ). member x (ids rows)) k ∙ m in
            ground arith)
        | inr s ↦ rw s (f i e)
      ])

  module _ (make : ℕ → Fields → Made A)
      (listed : (rid : ℕ) (raw : Fields) → Listed (make rid raw)) where
    build_from-Agrees :
        (rows : List (ℕ × Fields)) (t : Tables A)
        → Distinct (ids rows)
        → Fresh rows t.0
        → Agrees t
        → Agrees (build_from make rows t)
    unfolding member
    build_from-Agrees [] t d f h = h
    build_from-Agrees ((rid, raw) ∷ rows) t (n, d) f h =
        build_from-Agrees rows (add_row rid (make rid raw) t) d
          (add_row-Fresh rid (make rid raw) rows t n (λ i e. f i (ground arith)))
          (add_row-Agrees rid (make rid raw) t (listed rid raw)
            (f rid (ground (arith, ≡?_refl rid))) h)

-- The ids of the records of a table are different numbers.
abbrev pub HasDistinctIds : Fields → List String → Type 0
HasDistinctIds data_fields path =
    Distinct (map (λ (r : ℕ × Fields). r.0) (iter_db_records data_fields path))

abbrev pub war_owners : WarSnapshot → List ℕ
war_owners w = w.attacker_participants ++ w.defender_participants

abbrev pub activity_owners : ActivitySnapshot → List ℕ
activity_owners a = to_ids a.host_id ++ a.attendees

abbrev pub contract_owners : ContractSnapshot → List ℕ
contract_owners c = to_ids c.owner_id

abbrev pub court_position_owners : CourtPositionSnapshot → List ℕ
court_position_owners p = to_ids p.employer_id

from_start :
    {A : Type 0} (owners : A → List ℕ) (make : ℕ → Fields → Made A)
    → ((rid : ℕ) (raw : Fields) → Listed owners (make rid raw))
    → (rows : List (ℕ × Fields)) → Distinct (map (λ (r : ℕ × Fields). r.0) rows)
    → Agrees owners (build_table make rows)
unfolding build_table get member
from_start owners make listed rows d =
    build_from-Agrees owners make listed rows ([], []) d (λ i e. refl) (λ c i. refl)

contract-Listed : (cid : ℕ) (raw : Fields) → Listed contract_owners (make_contract cid raw)
unfolding make_contract
contract-Listed cid raw = elim (Option-cases (opt_str raw "status")) [
  | inl e ↦ rw (e, make_contract) tt
  | inr (status, e) ↦ rw (e, make_contract) refl
]

court_position-Listed :
    (pid : ℕ) (raw : Fields) → Listed court_position_owners (make_court_position pid raw)
unfolding make_court_position
court_position-Listed pid raw = elim (Option-cases (int_field "employer" raw)) [
  | inl e ↦ rw (e, make_court_position) tt
  | inr (employer, e) ↦ rw (e, make_court_position) refl
]

-- In a save whose tables give different ids to different records, each index by character agrees with
-- its table: a war is listed for exactly its participants of both sides, an activity for its host and
-- its attendees, a contract for its owner, and a court position for the employer; and an id that a
-- table lacks is listed for nobody.
pub tables_agree :
    (data_fields : Fields)
    → HasDistinctIds data_fields ("wars" ∷ "active_wars" ∷ [])
    → HasDistinctIds data_fields ("activity_manager" ∷ "database" ∷ [])
    → HasDistinctIds data_fields ("task_contracts" ∷ "database" ∷ [])
    → HasDistinctIds data_fields ("court_positions" ∷ "database" ∷ [])
    → Agrees war_owners (parse_wars data_fields)
      × Agrees activity_owners (parse_activities data_fields)
      × Agrees contract_owners (parse_contracts data_fields)
      × Agrees court_position_owners (parse_court_positions data_fields)
unfolding parse_wars parse_activities parse_contracts parse_court_positions make_war make_activity
tables_agree data_fields hw ha hc hp = (
  from_start war_owners make_war (λ rid raw. refl) _ hw,
  from_start activity_owners make_activity (λ rid raw. refl) _ ha,
  from_start contract_owners make_contract contract-Listed _ hc,
  from_start court_position_owners make_court_position court_position-Listed _ hp,
)
