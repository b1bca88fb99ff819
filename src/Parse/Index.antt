-- ===== src/Parse/Index.antt =====
-- src/chronicler/save/parse.py: the loop that the tables of a save share: a dict of records, and for each
-- character the set of the records that name it.
use ck3_llm_chronicler.Base.{
  ℕ, Bool, true, false, ◌||◌, ◌&&◌, List, [], ◌∷◌, Option, none, some, ◌≡?◌, nat_order, Dict, get,
  put, get_or, get-put, has_key, member, if◌then◌else◌, ◌≡◌, ◌∙◌, refl, ap, arith, inl, inr,
  Bool-cases, eq_of_≡?,
}
use ck3_llm_chronicler.Parse.Json.{Fields}

-- `builder.setdefault(cid, set()).add(item)`
unfoldable pub add_to : ℕ → ℕ → Dict ℕ (List ℕ) → Dict ℕ (List ℕ)
unfolding put get
add_to cid item d = put cid (item ∷ get_or cid [] d) d

abbrev pub add_to_all : List ℕ → ℕ → Dict ℕ (List ℕ) → Dict ℕ (List ℕ)
add_to_all [] item d = d
add_to_all (cid ∷ cids) item d = add_to_all cids item (add_to cid item d)

-- Whether the index lists the item for a character.
abbrev pub lists : ℕ → ℕ → Dict ℕ (List ℕ) → Bool
lists cid item d = member item (get_or cid [] d)

get_or-put :
    (cid c : ℕ) (v : List ℕ) (d : Dict ℕ (List ℕ))
    → get_or c [] (put cid v d) ≡ (if c ≡? cid then v else get_or c [] d)
get_or-put cid c v d =
    rw (get-put cid c v d, get_or)
      (elim (Bool-cases (c ≡? cid)) [ inl e ↦ rw e refl | inr e ↦ rw e refl ])

pub add_to_lem :
    (cid item c i : ℕ) (d : Dict ℕ (List ℕ))
    → lists c i (add_to cid item d) ≡ (((c ≡? cid) && (i ≡? item)) || lists c i d)
unfolding add_to member
add_to_lem cid item c i d =
    rw (get_or-put cid c (item ∷ get_or cid [] d) d) (elim (Bool-cases (c ≡? cid)) [
      | inl e ↦ rw e (
          ap (λ (k : ℕ). (i ≡? item) || lists k i d)
            (let same : cid ≡ c = ground (arith, eq_of_≡? c cid) in same))
      | inr e ↦ rw e refl
    ])

pub add_to_all_lem :
    (cids : List ℕ) (item c i : ℕ) (d : Dict ℕ (List ℕ))
    → lists c i (add_to_all cids item d) ≡ ((member c cids && (i ≡? item)) || lists c i d)
unfolding member
add_to_all_lem [] item c i d = refl
add_to_all_lem (cid ∷ cids) item c i d =
    rw (add_to_all_lem cids item c i (add_to cid item d))
      (ground (arith, add_to_lem cid item c i d))

has_key-put :
    {A : Type 0} (k i : ℕ) (v : A) (d : Dict ℕ A)
    → has_key i (put k v d) ≡ ((i ≡? k) || has_key i d)
has_key-put k i v d =
    rw (get-put k i v d, has_key)
      (elim (Bool-cases (i ≡? k)) [ inl e ↦ rw e refl | inr e ↦ rw e refl ])

-- What a table keeps of a record: the snapshot, and the characters that it is listed for.
abbrev pub Made : Type 0 → Type 0
Made A = Option (A × List ℕ)

abbrev pub Tables : Type 0 → Type 0
Tables A = Dict ℕ A × Dict ℕ (List ℕ)

abbrev pub add_row : {A : Type 0} → ℕ → Made A → Tables A → Tables A
add_row rid none t = t
add_row rid (some (a, cids)) t = (put rid a t.0, add_to_all cids rid t.1)

module _ {A : Type 0} (make : ℕ → Fields → Made A) where
  abbrev pub build_from : List (ℕ × Fields) → Tables A → Tables A
  build_from [] t = t
  build_from ((rid, raw) ∷ rows) t = build_from rows (add_row rid (make rid raw) t)

  -- The table and its index, from the records of a save in their order.
  unfoldable pub build_table : List (ℕ × Fields) → Tables A
  unfolding add_to
  build_table rows = build_from rows ([], [])

  -- The records that the table keeps with this id, and for this character.
  abbrev pub names : ℕ → ℕ → ℕ → Made A → Bool
  names c i rid none = false
  names c i rid (some (a, cids)) = member c cids && (i ≡? rid)

  abbrev pub named : ℕ → ℕ → List (ℕ × Fields) → Bool
  named c i [] = false
  named c i ((rid, raw) ∷ rows) = names c i rid (make rid raw) || named c i rows

  add_row_lem :
      (c i rid : ℕ) (made : Made A) (t : Tables A)
      → lists c i (add_row rid made t).1 ≡ (names c i rid made || lists c i t.1)
  add_row_lem c i rid none t = refl
  add_row_lem c i rid (some (a, cids)) t = add_to_all_lem cids rid c i t.1

  build_from_lem :
      (c i : ℕ) (rows : List (ℕ × Fields)) (t : Tables A)
      → lists c i (build_from rows t).1 ≡ (named c i rows || lists c i t.1)
  build_from_lem c i [] t = refl
  build_from_lem c i ((rid, raw) ∷ rows) t =
      rw (build_from_lem c i rows (add_row rid (make rid raw) t))
        (ground (arith, add_row_lem c i rid (make rid raw) t))

  pub build_table-lists :
      (c i : ℕ) (rows : List (ℕ × Fields)) → lists c i (build_table rows).1 ≡ named c i rows
  unfolding build_table get member
  build_table-lists c i rows = build_from_lem c i rows ([], []) ∙ ground arith

  -- Every record that the index lists is in the table.
  abbrev pub Complete : Tables A → Type 0
  Complete t = (c i : ℕ) → lists c i t.1 ≡ true → has_key i t.0 ≡ true

  add_row-Complete :
      (rid : ℕ) (made : Made A) (t : Tables A) → Complete t → Complete (add_row rid made t)
  add_row-Complete rid none t h c i e = h c i e
  add_row-Complete rid (some (a, cids)) t h c i e =
      has_key-put rid i a t.0 ∙ ground (arith, add_to_all_lem cids rid c i t.1, h c i)

  build_from-Complete :
      (rows : List (ℕ × Fields)) (t : Tables A) → Complete t → Complete (build_from rows t)
  build_from-Complete [] t h = h
  build_from-Complete ((rid, raw) ∷ rows) t h =
      build_from-Complete rows (add_row rid (make rid raw) t)
        (add_row-Complete rid (make rid raw) t h)

  pub build_table-Complete : (rows : List (ℕ × Fields)) → Complete (build_table rows)
  unfolding build_table get member
  build_table-Complete rows = build_from-Complete rows ([], []) (λ c i e. absurd cc)
