-- ===== src/Splendor/Tiers.antt =====
-- The splendor tier as a function of the renown.
use ck3_llm_chronicler.Base.{
  ℕ, ◌+◌, ◌≤◌, ◌<◌, true, List, [], ◌∷◌, ◌≡◌, refl, arith, length, leb, if◌then◌else◌,
}
use ck3_llm_chronicler.Splendor.{count_tiers, derive_splendor_tier, splendor_thresholds}

-- How many thresholds the renown reaches, wherever they stand.
unfoldable pub reached : ℕ → List ℕ → ℕ
reached a [] = 0
reached a (t ∷ ts) = (if leb t a then 1 else 0) + reached a ts

abbrev IsAbove : ℕ → List ℕ → Type 0
IsAbove a [] = Unit
IsAbove a (t ∷ ts) = (a < t) × IsAbove a ts

abbrev IsRising : List ℕ → Type 0
IsRising [] = Unit
IsRising (t ∷ ts) = IsAbove t ts × IsRising ts

none_reached : (a t : ℕ) (ts : List ℕ) → a < t → IsAbove t ts → reached a ts ≡ 0
unfolding reached
none_reached a t [] h k = refl
none_reached a t (u ∷ ts) h (k, ks) = ground (arith, none_reached a t ts h ks)

count_tiers_lem : (a n : ℕ) (ts : List ℕ) → IsRising ts → count_tiers a ts n ≡ n + reached a ts
unfolding count_tiers reached
count_tiers_lem a n [] h = omega arith
count_tiers_lem a n (t ∷ ts) (h, hs) =
    ground (arith, count_tiers_lem a (n + 1) ts hs, none_reached a t ts)

reached_mono : (a b : ℕ) (ts : List ℕ) → a ≤ b → reached a ts ≤ reached b ts
unfolding reached
reached_mono a b [] h = omega arith
reached_mono a b (t ∷ ts) h = ground (arith, reached_mono a b ts h)

reached-le-length : (a : ℕ) (ts : List ℕ) → reached a ts ≤ length ts
unfolding reached
reached-le-length a [] = omega arith
reached-le-length a (t ∷ ts) = ground (arith, reached-le-length a ts)

none_at_zero : (a : ℕ) → leb a 0 ≡ true → reached a splendor_thresholds ≡ 0
unfolding reached
none_at_zero a h = ground arith

thresholds_rise : IsRising splendor_thresholds
thresholds_rise = ground arith

tier-eq-reached : (a : ℕ) → derive_splendor_tier a ≡ reached a splendor_thresholds
unfolding derive_splendor_tier
tier-eq-reached a =
    ground (arith, none_at_zero a, count_tiers_lem a 0 splendor_thresholds thresholds_rise)

-- At any renown, the tier is the number of thresholds that the renown reaches, counted over the whole
-- table (the loop stops at the first that is not reached), it is at most 6, the last of the named
-- tiers, and renown that is at least as great has a tier that is at least as great.
pub derive_splendor_tier_lem :
    (a b : ℕ)
    → (derive_splendor_tier a ≡ reached a splendor_thresholds)
      × (derive_splendor_tier a ≤ 6)
      × (a ≤ b → derive_splendor_tier a ≤ derive_splendor_tier b)
derive_splendor_tier_lem a b = (
  tier-eq-reached a,
  omega (arith, tier-eq-reached a, reached-le-length a splendor_thresholds),
  λ h. omega (arith, tier-eq-reached a, tier-eq-reached b, reached_mono a b splendor_thresholds h),
)
