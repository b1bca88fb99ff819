-- ===== src/Base/Dicts.antt =====
-- Python's `dict` over ordered keys: the list of its items in insertion order.
use ck3_llm_chronicler.Base.Orders.{Order, ◌≡?◌}
use ck3_llm_chronicler.Base.Sets.{member}
use ck3_llm_chronicler.Base.Tests.{if◌then◌else◌}
use mathlib.Core.Bool.{Bool, true, false}
use mathlib.Core.List.{List, [], ◌∷◌, map}
use mathlib.Core.Option.{Option, none, some}
use mathlib.Core.Path.{◌≡◌, refl}
use native.Mathlib.Omega.{arith}

abbrev pub Dict : Type 0 → Type 0 → Type 0
Dict K V = List (K × V)

module _ {K V : Type 0} where
  abbrev pub keys : Dict K V → List K
  keys d = map (λ e. e.0) d

module _ {K V : Type 0} ⦃o : Order K⦄ where
  -- `d.get(k)`
  unfoldable pub get : K → Dict K V → Option V
  get k [] = none
  get k ((j, v) ∷ d) = let rest = get k d in if k ≡? j then some v else rest

  -- `k in d`
  abbrev pub has_key : K → Dict K V → Bool
  has_key k d = elim (get k d) [ none ↦ false | some v ↦ true ]

  -- `d.get(k, default)`
  abbrev pub get_or : K → V → Dict K V → V
  get_or k v d = elim (get k d) [ none ↦ v | some w ↦ w ]

  -- `d.pop(k, None)` and `del d[k]`
  unfoldable pub pop : K → Dict K V → Dict K V
  pop k [] = []
  pop k ((j, v) ∷ d) = let rest = pop k d in if k ≡? j then rest else (j, v) ∷ rest

  -- `d[k] = v`: a key that is there keeps its place.
  unfoldable pub put : K → V → Dict K V → Dict K V
  put k v [] = (k, v) ∷ []
  put k v ((j, w) ∷ d) = let rest = put k v d in if k ≡? j then (j, v) ∷ d else (j, w) ∷ rest

  pub get-put :
      (k j : K) (v : V) (d : Dict K V) → get j (put k v d) ≡ (if j ≡? k then some v else get j d)
  unfolding get put
  get-put k j v [] = refl
  get-put k j v ((i, w) ∷ d) = ground (
    arith,
    get-put k j v d,
    o.le?_antisymm k i,
    o.le?_antisymm j i,
    o.le?_antisymm j k,
    o.le?_refl j,
    o.le?_refl k,
  )

  pub get-pop : (k j : K) (d : Dict K V) → get j (pop k d) ≡ (if j ≡? k then none else get j d)
  unfolding get pop
  get-pop k j [] = ground arith
  get-pop k j ((i, w) ∷ d) = ground (
    arith,
    get-pop k j d,
    o.le?_antisymm k i,
    o.le?_antisymm j i,
    o.le?_antisymm j k,
    o.le?_refl j,
    o.le?_refl k,
  )

  pub has_key-eq-member : (k : K) (d : Dict K V) → has_key k d ≡ member k (keys d)
  unfolding get member
  has_key-eq-member k [] = refl
  has_key-eq-member k ((j, v) ∷ d) = ground (arith, has_key-eq-member k d)
