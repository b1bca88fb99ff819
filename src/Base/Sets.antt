-- ===== src/Base/Sets.antt =====
-- Python's `set` and `dict` over ordered keys. A set is any list of its elements: no operation
-- here tells two lists of the same elements apart.
use ck3_llm_chronicler.Base.Lists.{filter}
use ck3_llm_chronicler.Base.Orders.{Order, ◌≤?◌, ◌≡?◌, ≡?_refl, eq_of_≡?}
use ck3_llm_chronicler.Base.Tests.{if◌then◌else◌, Bool-cases}
use mathlib.Core.Bool.{Bool, true, false, not, ◌&&◌, ◌||◌}
use mathlib.Core.List.{List, [], ◌∷◌, ◌++◌}
use mathlib.Core.Logic.{inl, inr}
use mathlib.Core.Path.{◌≡◌, refl, ap}
use native.Mathlib.Omega.{arith}

module _ {A : Type 0} ⦃o : Order A⦄ where
  unfoldable pub member : A → List A → Bool
  member a [] = false
  member a (x ∷ xs) = (a ≡? x) || member a xs

  -- `xs - ys`
  unfoldable pub difference : List A → List A → List A
  difference xs ys = filter (λ x. not (member x ys)) xs

  unfoldable pub subset : List A → List A → Bool
  subset [] ys = true
  subset (x ∷ xs) ys = member x ys && subset xs ys

  -- `xs == ys`
  unfoldable pub same_set : List A → List A → Bool
  unfolding subset
  same_set xs ys = subset xs ys && subset ys xs

  unfoldable pub insert : A → List A → List A
  insert a [] = a ∷ []
  insert a (x ∷ xs) =
      let rest = insert a xs in if a ≤? x then (if x ≤? a then x ∷ xs else a ∷ x ∷ xs) else x ∷ rest

  -- `sorted(set(xs))`
  unfoldable pub sorted : List A → List A
  unfolding insert
  sorted [] = []
  sorted (x ∷ xs) = insert x (sorted xs)

  pub member-append : (a : A) (xs ys : List A) → member a (xs ++ ys) ≡ (member a xs || member a ys)
  unfolding member
  member-append a [] ys = refl
  member-append a (x ∷ xs) ys = ground (arith, member-append a xs ys)

  pub member-insert : (a b : A) (xs : List A) → member a (insert b xs) ≡ ((a ≡? b) || member a xs)
  unfolding member insert
  member-insert a b [] = refl
  member-insert a b (x ∷ xs) = ground (arith, member-insert a b xs, o.le?_antisymm b x)

  pub member-sorted : (a : A) (xs : List A) → member a (sorted xs) ≡ member a xs
  unfolding member sorted
  member-sorted a [] = refl
  member-sorted a (x ∷ xs) = rw (member-insert a x (sorted xs)) (rw (member-sorted a xs))

  pub member-filter :
      (a : A) (p : A → Bool) (xs : List A) → member a (filter p xs) ≡ (member a xs && p a)
  unfolding member
  member-filter a p [] = refl
  member-filter a p (x ∷ xs) = elim (Bool-cases (a ≡? x)) [
    | inl e ↦
        rw (eq_of_≡? a x e) (ground (arith, member-filter x p xs, ≡?_refl x, ap p (eq_of_≡? a x e)))
    | inr e ↦ ground (arith, member-filter a p xs)
  ]

  pub member-difference :
      (a : A) (xs ys : List A) → member a (difference xs ys) ≡ (member a xs && not (member a ys))
  unfolding difference
  member-difference a xs ys = member-filter a (λ x. not (member x ys)) xs
