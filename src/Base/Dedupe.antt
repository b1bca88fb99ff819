-- ===== src/Base/Dedupe.antt =====
-- Lists without repetition: `if x not in seen: seen.add(x); out.append(x)` over a list.
use ck3_llm_chronicler.Base.Orders.{Order, eq_of_≡?, ≡?_refl}
use ck3_llm_chronicler.Base.Sets.{member}
use ck3_llm_chronicler.Base.Tests.{if◌then◌else◌, Bool-cases}
use mathlib.Core.Bool.{true, false}
use mathlib.Core.List.{List, [], ◌∷◌}
use mathlib.Core.Logic.{inl, inr}
use mathlib.Core.Path.{◌≡◌}
use native.Mathlib.Omega.{arith}

module _ {A : Type 0} ⦃o : Order A⦄ where
  -- The first occurrences, in their order, of what `seen` does not hold.
  unfoldable pub dedupe : List A → List A → List A
  unfolding member
  dedupe seen [] = []
  dedupe seen (x ∷ xs) = elim (member x seen) [
    | true ↦ dedupe seen xs
    | false ↦ x ∷ dedupe (x ∷ seen) xs
  ]

  -- No item stands twice.
  abbrev pub Distinct : List A → Type 0
  Distinct [] = Unit
  Distinct (x ∷ xs) = (member x xs ≡ false) × Distinct xs

  pub member-dedupe :
      (x : A) (seen xs : List A)
      → member x (dedupe seen xs) ≡ (if member x seen then false else member x xs)
  unfolding dedupe member
  member-dedupe x seen [] = ground arith
  member-dedupe x seen (y ∷ xs) = elim (Bool-cases (member y seen)) [
    | inl e ↦ rw (e, dedupe) (ground (arith, member-dedupe x seen xs, eq_of_≡? x y, e))
    | inr e ↦ rw (e, dedupe) (ground (arith, member-dedupe x (y ∷ seen) xs, eq_of_≡? x y, e))
  ]

  first_only : (y : A) (seen xs : List A) → member y (dedupe (y ∷ seen) xs) ≡ false
  unfolding member
  first_only y seen xs = ground (arith, member-dedupe y (y ∷ seen) xs, ≡?_refl y)

  pub dedupe-Distinct : (seen xs : List A) → Distinct (dedupe seen xs)
  unfolding dedupe
  dedupe-Distinct seen [] = tt
  dedupe-Distinct seen (y ∷ xs) = elim (Bool-cases (member y seen)) [
    | inl e ↦ rw (e, dedupe) (dedupe-Distinct seen xs)
    | inr e ↦ rw (e, dedupe) (first_only y seen xs, dedupe-Distinct (y ∷ seen) xs)
  ]
