-- ===== src/Base/Lists.antt =====
-- Lists with native lengths and Boolean predicates.
use Prim.Native.Nat.{ℕ, zero, suc, ◌+◌}
use mathlib.Core.Bool.{Bool, true, false, ◌||◌}
use mathlib.Core.List.{List, [], ◌∷◌, ◌++◌, map}
use mathlib.Core.Logic.{inl, inr, ◌⊎◌}
use mathlib.Core.Option.{Option, none, some}
use mathlib.Core.Path.{◌≡◌, refl}
use native.Mathlib.Omega.{arith}
use ck3_llm_chronicler.Base.Tests.{if◌then◌else◌, Bool-cases}

module _ {ℓ} {A : Type ℓ} where
  abbrev pub length : List A → ℕ
  length [] = 0
  length (x ∷ xs) = suc (length xs)

  abbrev pub any : List A → (A → Bool) → Bool
  any [] p = false
  any (x ∷ xs) p = p x || any xs p

  abbrev pub filter : (A → Bool) → List A → List A
  filter p [] = []
  filter p (x ∷ xs) = let rest = filter p xs in if p x then x ∷ rest else rest

  abbrev pub is_empty : List A → Bool
  is_empty [] = true
  is_empty (x ∷ xs) = false

  -- `[v] if o else []`
  abbrev pub to_list : Option A → List A
  to_list none = []
  to_list (some a) = a ∷ []

  abbrev pub get_elem? : List A → ℕ → Option A
  get_elem? [] i = none
  get_elem? (x ∷ xs) zero = some x
  get_elem? (x ∷ xs) (suc i) = get_elem? xs i

  pub length-append : (xs ys : List A) → length (xs ++ ys) ≡ length xs + length ys
  length-append [] ys = omega arith
  length-append (x ∷ xs) ys = omega (arith, length-append xs ys)

module _ {ℓ κ} {A : Type ℓ} {B : Type κ} where
  -- `out.extend(f(x))` for each `x`
  abbrev pub flat_map : (A → List B) → List A → List B
  flat_map f [] = []
  flat_map f (x ∷ xs) = f x ++ flat_map f xs

  abbrev pub filter_map : (A → Option B) → List A → List B
  filter_map f [] = []
  filter_map f (x ∷ xs) =
      let rest = filter_map f xs in elim (f x) [ none ↦ rest | some b ↦ b ∷ rest ]

module _ {ℓ κ} {A : Type ℓ} (P : A → Type κ) where
  abbrev pub All : List A → Type κ
  All [] = Unit
  All (x ∷ xs) = P x × All xs

  pub All-append : (xs ys : List A) → All xs → All ys → All (xs ++ ys)
  All-append [] ys hx hy = hy
  All-append (x ∷ xs) ys (px, hx) hy = (px, All-append xs ys hx hy)

  -- `[]` on the branch of an early return.
  pub All-silent : (b : Bool) (xs : List A) → All xs → All (if b then [] else xs)
  All-silent true xs h = tt
  All-silent false xs h = h

  pub All-if : (b : Bool) (x : A) → P x → All (if b then x ∷ [] else [])
  All-if true x h = (h, tt)
  All-if false x h = tt

  pub All-filter : (p : A → Bool) (xs : List A) → All xs → All (filter p xs)
  All-filter p [] h = tt
  All-filter p (x ∷ xs) (px, h) = elim (Bool-cases (p x)) [
    | inl e ↦ rw e (px, All-filter p xs h)
    | inr e ↦ rw e (All-filter p xs h)
  ]

module _ {κ μ} {B : Type κ} (P : B → Type μ) where
  All-next :
      (o : Option B) (rest : List B)
      → ((b : B) → o ≡ some b → P b)
      → All P rest
      → All P (elim o [ none ↦ rest | some b ↦ b ∷ rest ])
  All-next none rest h k = k
  All-next (some b) rest h k = (h b refl, k)

module _ {ℓ κ μ} {A : Type ℓ} {B : Type κ} (P : B → Type μ) where
  pub All-map : (f : A → B) (xs : List A) → ((x : A) → P (f x)) → All P (map f xs)
  All-map f [] h = tt
  All-map f (x ∷ xs) h = (h x, All-map f xs h)

  pub All-filter_map :
      (f : A → Option B) (xs : List A)
      → ((x : A) (b : B) → f x ≡ some b → P b)
      → All P (filter_map f xs)
  All-filter_map f [] h = tt
  All-filter_map f (x ∷ xs) h = All-next P (f x) (filter_map f xs) (h x) (All-filter_map f xs h)

module _ {ℓ κ} {A : Type ℓ} {B : Type κ} where
  pub filter_map-none :
      (f : A → Option B) (xs : List A) → ((x : A) → f x ≡ none) → filter_map f xs ≡ []
  filter_map-none f [] h = refl
  filter_map-none f (x ∷ xs) h = ground (arith, h x, filter_map-none f xs h)

-- `e` is an item of the list.
module _ {A : Type 0} where
  abbrev pub Has : A → List A → Type 0
  Has e [] = ⊥
  Has e (x ∷ xs) = (x ≡ e) ⊎ Has e xs

  pub Has-append_left : (e : A) (xs ys : List A) → Has e xs → Has e (xs ++ ys)
  Has-append_left e [] ys h = absurd h
  Has-append_left e (x ∷ xs) ys (inl h) = inl h
  Has-append_left e (x ∷ xs) ys (inr h) = inr (Has-append_left e xs ys h)

  pub Has-append_right : (e : A) (xs ys : List A) → Has e ys → Has e (xs ++ ys)
  Has-append_right e [] ys h = h
  Has-append_right e (x ∷ xs) ys h = inr (Has-append_right e xs ys h)

  pub Has-append_cases : (e : A) (xs ys : List A) → Has e (xs ++ ys) → Has e xs ⊎ Has e ys
  Has-append_cases e [] ys h = inr h
  Has-append_cases e (x ∷ xs) ys (inl h) = inl (inl h)
  Has-append_cases e (x ∷ xs) ys (inr h) = elim (Has-append_cases e xs ys h) [
    | inl k ↦ inl (inr k)
    | inr k ↦ inr k
  ]
