-- ===== src/Base/SetLaws.antt =====
-- Sets up to their elements: the ascending list of a set is determined by its membership.
use ck3_llm_chronicler.Base.Lists.{All, Has, filter, filter_map}
use ck3_llm_chronicler.Base.Orders.{Order, ◌≤?◌, ◌≡?◌, ≡?_refl, eq_of_≡?}
use ck3_llm_chronicler.Base.Sets.{
  member, difference, subset, same_set, insert, sorted, member-sorted, member-difference,
}
use ck3_llm_chronicler.Base.Tests.{Bool-cases, Option-cases}
use mathlib.Core.Bool.{Bool, true, false}
use mathlib.Core.List.{List, [], ◌∷◌}
use mathlib.Core.Logic.{inl, inr}
use mathlib.Core.Option.{Option, none, some}
use mathlib.Core.Path.{◌≡◌, refl, ap₂, sym, subst, ◌∙◌}
use native.Mathlib.Omega.{arith}

module _ {A : Type 0} ⦃o : Order A⦄ where
  -- The lists hold the same elements.
  abbrev pub SameMembers : List A → List A → Type 0
  SameMembers xs ys = (a : A) → member a xs ≡ member a ys

  -- `x` is strictly below every element.
  abbrev pub Below : A → List A → Type 0
  Below x ys = All (λ y. (y ≤? x) ≡ false) ys

  abbrev pub IsAscending : List A → Type 0
  IsAscending [] = Unit
  IsAscending (x ∷ xs) = Below x xs × IsAscending xs

  lt_trans : (x y z : A) → (y ≤? x) ≡ false → (z ≤? y) ≡ false → (z ≤? x) ≡ false
  lt_trans x y z h k = ground (arith, o.le?_trans z x y, o.le?_total y x)

  Below-trans : (x y : A) (zs : List A) → (y ≤? x) ≡ false → Below y zs → Below x zs
  Below-trans x y [] h k = tt
  Below-trans x y (z ∷ zs) h (p, k) = (lt_trans x y z h p, Below-trans x y zs h k)

  Below-insert : (x a : A) (xs : List A) → (a ≤? x) ≡ false → Below x xs → Below x (insert a xs)
  unfolding insert
  Below-insert x a [] h k = (h, tt)
  Below-insert x a (y ∷ ys) h (p, k) = ground (arith, Below-insert x a ys h k)

  insert-IsAscending : (a : A) (xs : List A) → IsAscending xs → IsAscending (insert a xs)
  unfolding insert
  insert-IsAscending a [] h = (tt, tt)
  insert-IsAscending a (x ∷ xs) (h, k) = elim (Bool-cases (a ≤? x)) [
    | inl le ↦ elim (Bool-cases (x ≤? a)) [
      | inl ge ↦ rw le (rw ge (h, k))
      | inr gt ↦ rw le (rw gt ((gt, Below-trans a x xs gt h), (h, k)))
    ]
    | inr gt ↦ rw gt (Below-insert x a xs gt h, insert-IsAscending a xs k)
  ]

  -- `sorted` gives strictly ascending lists, so no element twice.
  pub sorted-IsAscending : (xs : List A) → IsAscending (sorted xs)
  unfolding sorted
  sorted-IsAscending [] = tt
  sorted-IsAscending (x ∷ xs) = insert-IsAscending x (sorted xs) (sorted-IsAscending xs)

  not-member-Below : (x : A) (ys : List A) → Below x ys → member x ys ≡ false
  unfolding member
  not-member-Below x [] h = refl
  not-member-Below x (y ∷ ys) (p, h) = ground (arith, not-member-Below x ys h)

  -- Below the head of an ascending list there is no other element.
  not-member_of_lt :
      (a x : A) (xs : List A) → (x ≤? a) ≡ false → Below x xs → member a (x ∷ xs) ≡ false
  unfolding member
  not-member_of_lt a x xs h k = ground (arith, not-member-Below a xs (Below-trans a x xs h k))

  heads_equal :
      (x y : A) (xs ys : List A) → Below x xs → Below y ys → SameMembers (x ∷ xs) (y ∷ ys) → x ≡ y
  unfolding member
  heads_equal x y xs ys hx hy same = elim (Bool-cases (x ≤? y)) [
    | inl le ↦ elim (Bool-cases (y ≤? x)) [
      | inl ge ↦ o.le?_antisymm x y le ge
      | inr gt ↦ absurd (ground (arith, same x, ≡?_refl x, not-member_of_lt x y ys gt hy))
    ]
    | inr gt ↦ absurd (ground (arith, same y, ≡?_refl y, not-member_of_lt y x xs gt hx))
  ]

  tails_same :
      (x : A) (xs ys : List A)
      → Below x xs
      → Below x ys
      → SameMembers (x ∷ xs) (x ∷ ys)
      → SameMembers xs ys
  unfolding member
  tails_same x xs ys hx hy same a = elim (Bool-cases (a ≡? x)) [
    | inl e ↦ rw (eq_of_≡? a x e) (rw (not-member-Below x xs hx) (sym (not-member-Below x ys hy)))
    | inr n ↦ ground (arith, same a)
  ]

  -- Two ascending lists with the same elements are equal.
  pub IsAscending-ext :
      (xs ys : List A) → IsAscending xs → IsAscending ys → SameMembers xs ys → xs ≡ ys
  unfolding member
  IsAscending-ext [] [] h k same = refl
  IsAscending-ext [] (y ∷ ys) h k same = absurd (ground (arith, same y, ≡?_refl y))
  IsAscending-ext (x ∷ xs) [] h k same = absurd (ground (arith, same x, ≡?_refl x))
  IsAscending-ext (x ∷ xs) (y ∷ ys) (hx, h) (hy, k) same =
      let e = heads_equal x y xs ys hx hy same in
      let hy' : Below x ys = rw e hy in
      let same' : SameMembers (x ∷ xs) (x ∷ ys) =
        subst (λ z. SameMembers (x ∷ xs) (z ∷ ys)) (sym e) same in
      ap₂ ◌∷◌ e (IsAscending-ext xs ys h k (tails_same x xs ys hx hy' same'))

  pub sorted_ext : (xs ys : List A) → SameMembers xs ys → sorted xs ≡ sorted ys
  sorted_ext xs ys same =
      IsAscending-ext (sorted xs) (sorted ys) (sorted-IsAscending xs) (sorted-IsAscending ys)
        (λ a. member-sorted a xs ∙ same a ∙ sym (member-sorted a ys))

  pub subset_elim :
      (a : A) (xs ys : List A) → subset xs ys ≡ true → member a xs ≡ true → member a ys ≡ true
  unfolding subset member
  subset_elim a [] ys h k = cc
  subset_elim a (x ∷ xs) ys h k = elim (Bool-cases (a ≡? x)) [
    | inl e ↦ rw (eq_of_≡? a x e) (ground arith)
    | inr n ↦ subset_elim a xs ys (ground arith) (ground arith)
  ]

  subset_weaken : (y : A) (xs ys : List A) → subset xs ys ≡ true → subset xs (y ∷ ys) ≡ true
  unfolding subset member
  subset_weaken y [] ys h = refl
  subset_weaken y (x ∷ xs) ys h = ground (arith, subset_weaken y xs ys)

  pub subset_refl : (xs : List A) → subset xs xs ≡ true
  unfolding subset member
  subset_refl [] = refl
  subset_refl (x ∷ xs) = ground (arith, ≡?_refl x, subset_weaken x xs xs (subset_refl xs))

  -- `xs == ys` holds of a set and itself.
  pub same_set_refl : (xs : List A) → same_set xs xs ≡ true
  unfolding same_set
  same_set_refl xs = ground (arith, subset_refl xs)

  -- What `xs == ys` says: the same elements.
  pub SameMembers-same_set : (xs ys : List A) → same_set xs ys ≡ true → SameMembers xs ys
  unfolding same_set
  SameMembers-same_set xs ys h a = elim (Bool-cases (member a xs)) [
    | inl m ↦ rw m (sym (subset_elim a xs ys (ground arith) m))
    | inr n ↦ elim (Bool-cases (member a ys)) [
      | inl m ↦ absurd (ground (arith, subset_elim a ys xs (ground arith) m))
      | inr n' ↦ rw n (sym n')
    ]
  ]

  nil_of_no_member : (xs : List A) → ((a : A) → member a xs ≡ false) → xs ≡ []
  unfolding member
  nil_of_no_member [] h = refl
  nil_of_no_member (x ∷ xs) h = absurd (ground (arith, h x, ≡?_refl x))

  -- Nothing is left of a set after taking away a set that has all its elements.
  pub difference-eq-nil :
      (xs ys : List A) → ((a : A) → member a xs ≡ true → member a ys ≡ true) → difference xs ys ≡ []
  difference-eq-nil xs ys h =
      nil_of_no_member (difference xs ys)
        (λ a. rw (member-difference a xs ys) (ground (arith, h a)))

  pub difference_self : (xs : List A) → difference xs xs ≡ []
  difference_self xs = difference-eq-nil xs xs (λ a h. h)

  filter-Below : (p : A → Bool) (x : A) (ys : List A) → Below x ys → Below x (filter p ys)
  filter-Below p x [] h = tt
  filter-Below p x (y ∷ ys) (h, k) = elim (Bool-cases (p y)) [
    | inl e ↦ rw e (h, filter-Below p x ys k)
    | inr e ↦ rw e (filter-Below p x ys k)
  ]

  pub filter-IsAscending : (p : A → Bool) (xs : List A) → IsAscending xs → IsAscending (filter p xs)
  filter-IsAscending p [] h = tt
  filter-IsAscending p (x ∷ xs) (h, k) = elim (Bool-cases (p x)) [
    | inl e ↦ rw e (filter-Below p x xs h, filter-IsAscending p xs k)
    | inr e ↦ rw e (filter-IsAscending p xs k)
  ]

module _ {A : Type 0} {B : Type 0} ⦃o : Order A⦄ where
  Has-filter_map-next :
      (f : A → Option B) (x : A) (xs : List A) (b : B)
      → Has b (filter_map f xs)
      → Has b (filter_map f (x ∷ xs))
  Has-filter_map-next f x xs b h = elim (Option-cases (f x)) [
    | inl e ↦
        subst (λ o. Has b (elim o [ none ↦ filter_map f xs | some c ↦ c ∷ filter_map f xs ]))
          (sym e) h
    | inr (c, e) ↦
        subst (λ o. Has b (elim o [ none ↦ filter_map f xs | some c ↦ c ∷ filter_map f xs ]))
          (sym e) (inr h)
  ]

  Has-filter_map-here :
      (f : A → Option B) (x : A) (xs : List A) (b : B)
      → f x ≡ some b
      → Has b (filter_map f (x ∷ xs))
  Has-filter_map-here f x xs b e =
      subst (λ o. Has b (elim o [ none ↦ filter_map f xs | some c ↦ c ∷ filter_map f xs ])) (sym e)
        (inl refl)

  -- What the element `a` of a set gives is among the results.
  pub Has-filter_map :
      (f : A → Option B) (a : A) (xs : List A) (b : B)
      → member a xs ≡ true
      → f a ≡ some b
      → Has b (filter_map f xs)
  unfolding member
  Has-filter_map f a [] b h e = cc
  Has-filter_map f a (x ∷ xs) b h e = elim (Bool-cases (a ≡? x)) [
    | inl same ↦ Has-filter_map-here f x xs b (rw (← eq_of_≡? a x same) e)
    | inr other ↦ Has-filter_map-next f x xs b (Has-filter_map f a xs b (ground arith) e)
  ]
