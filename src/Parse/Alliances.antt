-- ===== src/Parse/Alliances.antt =====
-- src/chronicler/save/parse.py: alliances are recorded in both directions.
use ck3_llm_chronicler.Base.{
  ℕ, List, [], ◌∷◌, Option, none, some, nat_order, Dict, get, member, ◌≡◌, refl, arith, filter_map,
  subst,
}
use ck3_llm_chronicler.Parse.Json.{Fields, field, as_items}
use ck3_llm_chronicler.Parse.Index.{lists, add_to, add_to_lem}
use ck3_llm_chronicler.Parse.Titles.{◌>>=◌}
use ck3_llm_chronicler.Parse.People.{add_pairs, parse_alliances, or_empty, allied}

abbrev IsSymmetric : Dict ℕ (List ℕ) → Type 0
IsSymmetric d = (a b : ℕ) → lists a b d ≡ lists b a d

add_pair-IsSymmetric :
    (x y : ℕ) (d : Dict ℕ (List ℕ)) → IsSymmetric d → IsSymmetric (add_to y x (add_to x y d))
add_pair-IsSymmetric x y d h a b = ground (
  arith,
  add_to_lem y x a b (add_to x y d),
  add_to_lem x y a b d,
  add_to_lem y x b a (add_to x y d),
  add_to_lem x y b a d,
  h a b,
)

add_pairs-IsSymmetric :
    (pairs : List (ℕ × ℕ)) (d : Dict ℕ (List ℕ)) → IsSymmetric d → IsSymmetric (add_pairs pairs d)
add_pairs-IsSymmetric [] d h = h
add_pairs-IsSymmetric ((x, y) ∷ pairs) d h =
    add_pairs-IsSymmetric pairs (add_to y x (add_to x y d)) (add_pair-IsSymmetric x y d h)

read-IsSymmetric :
    (o : Option Fields) (alliances : Dict ℕ (List ℕ))
    → (o >>= λ r. some (add_pairs (filter_map allied (as_items (field "active_relations" r))) []))
      ≡ some alliances
    → IsSymmetric alliances
unfolding get member
read-IsSymmetric none alliances h = absurd cc
read-IsSymmetric (some r) alliances h =
    let pairs = filter_map allied (as_items (field "active_relations" r)) in
    let is : add_pairs pairs [] ≡ alliances = cc in
    subst IsSymmetric (is) (add_pairs-IsSymmetric pairs [] (λ a b. refl))

-- The alliances of a save, where its relations can be read: each character is listed as an ally of
-- all those, and of those only, that are listed as allies of the character.
pub parse_alliances_symmetric :
    (data_fields : Fields) (alliances : Dict ℕ (List ℕ)) (a b : ℕ)
    → parse_alliances data_fields ≡ some alliances
    → lists a b alliances ≡ lists b a alliances
unfolding parse_alliances
parse_alliances_symmetric data_fields alliances a b h =
    read-IsSymmetric (or_empty (field "relations" data_fields)) alliances h a b
