-- ===== src/Parse/Unseen.antt =====
-- The measure of a walk that visits no key twice: how many keys it has not seen.
use ck3_llm_chronicler.Base.{
  ℕ, ◌≤◌, ◌<◌, true, false, not, List, [], ◌∷◌, ◌≡?◌, nat_order, member, filter, length, ◌≡◌, refl,
  arith, inl, inr, Bool-cases, eq_of_≡?, ≡?_refl, Dict, keys, get, has_key, has_key-eq-member, some,
}

unfoldable pub unseen : List ℕ → List ℕ → ℕ
unfolding member
unseen seen ks = length (filter (λ k. not (member k seen)) ks)

pub unseen-le : (t : ℕ) (seen ks : List ℕ) → unseen (t ∷ seen) ks ≤ unseen seen ks
unfolding unseen member
unseen-le t seen [] = omega arith
unseen-le t seen (k ∷ ks) = ground (arith, unseen-le t seen ks)

-- Seeing a key for the first time leaves fewer.
pub unseen-lt :
    (t : ℕ) (seen ks : List ℕ)
    → member t ks ≡ true
    → member t seen ≡ false
    → unseen (t ∷ seen) ks < unseen seen ks
unfolding unseen member
unseen-lt t seen [] h e = absurd cc
unseen-lt t seen (k ∷ ks) h e = elim (Bool-cases (t ≡? k)) [
  | inl s ↦
      let same : t ≡ k = eq_of_≡? t k s in
      rw (← same) (rw e (rw (≡?_refl t) (ground (arith, unseen-le t seen ks))))
  | inr s ↦ ground (arith, unseen-lt t seen ks, unseen-le t seen ks, s)
]

pub unseen-nil : (ks : List ℕ) → unseen [] ks ≡ length ks
unfolding unseen member
unseen-nil [] = refl
unseen-nil (k ∷ ks) = ground (arith, unseen-nil ks)

pub length-keys : {A : Type 0} (d : Dict ℕ A) → length (keys d) ≡ length d
length-keys [] = refl
length-keys (x ∷ d) = omega (arith, length-keys d)

pub get-member-keys :
    {A : Type 0} (k : ℕ) (a : A) (d : Dict ℕ A) → get k d ≡ some a → member k (keys d) ≡ true
get-member-keys k a d h = rw (← has_key-eq-member k d) (rw (h, has_key) refl)
