-- ===== src/Base/ListOrder.antt =====
-- Python compares lists, tuples and texts by their first different items.
use ck3_llm_chronicler.Base.Orders.{Order, ◌≤?◌}
use ck3_llm_chronicler.Base.Tests.{if◌then◌else◌}
use mathlib.Core.Bool.{Bool, true, false}
use mathlib.Core.List.{List, [], ◌∷◌}
use mathlib.Core.Path.{◌≡◌, refl, ap₂}
use native.Mathlib.Omega.{arith}

module _ {A : Type 0} ⦃o : Order A⦄ where
  abbrev pub list_le? : List A → List A → Bool
  list_le? [] t = true
  list_le? (a ∷ s) [] = false
  list_le? (a ∷ s) (b ∷ t) =
      let rest = list_le? s t in if a ≤? b then (if b ≤? a then rest else true) else false

  pub list_refl : (s : List A) → list_le? s s ≡ true
  list_refl [] = refl
  list_refl (a ∷ s) = ground (arith, list_refl s, o.le?_refl a)

  pub list_total : (s t : List A) → list_le? s t ≡ false → list_le? t s ≡ true
  list_total [] t h = ground arith
  list_total (a ∷ s) [] h = refl
  list_total (a ∷ s) (b ∷ t) h = ground (arith, list_total s t, o.le?_total a b)

  pub list_trans :
      (s t u : List A) → list_le? s t ≡ true → list_le? t u ≡ true → list_le? s u ≡ true
  list_trans [] t u h k = refl
  list_trans (a ∷ s) [] u h k = ground arith
  list_trans (a ∷ s) (b ∷ t) [] h k = ground arith
  list_trans (a ∷ s) (b ∷ t) (c ∷ u) h k =
      ground (arith, list_trans s t u, o.le?_trans a b c, o.le?_trans b c a, o.le?_trans c a b)

  pub list_antisymm : (s t : List A) → list_le? s t ≡ true → list_le? t s ≡ true → s ≡ t
  list_antisymm [] [] h k = refl
  list_antisymm [] (b ∷ t) h k = cc
  list_antisymm (a ∷ s) [] h k = cc
  list_antisymm (a ∷ s) (b ∷ t) h k =
      ap₂ ◌∷◌ (o.le?_antisymm a b (ground arith) (ground arith))
        (list_antisymm s t (ground arith) (ground arith))

  instance abbrev pub list_order : Order (List A)
  list_order = record {
    le? = list_le?;
    le?_refl = list_refl;
    le?_total = list_total;
    le?_trans = list_trans;
    le?_antisymm = list_antisymm;
  }
