-- ===== src/Splendor.antt =====
-- src/chronicler/save/dynasty_splendor.py: the tier of a dynasty's lifetime renown, counted in
-- hundred-thousandths.
pub mod Tiers
use ck3_llm_chronicler.Base.{ℕ, ◌+◌, ◌*◌, String, List, [], ◌∷◌, if◌then◌else◌, leb}

abbrev pub renown : ℕ → ℕ
renown n = n * 100000

abbrev pub splendor_thresholds : List ℕ
splendor_thresholds =
    renown 1000 ∷ renown 5000 ∷ renown 15000 ∷ renown 35000 ∷ renown 65000 ∷ renown 105000 ∷ []

abbrev pub splendor_tier_names : List String
splendor_tier_names =
    "Base Origins" ∷ "Obscure" ∷ "Insignificant" ∷ "Noteworthy" ∷ "Reputable" ∷ "Well-known"
    ∷ "Significant" ∷ []

-- The loop: one tier for each threshold reached, up to the first that is not.
unfoldable pub count_tiers : ℕ → List ℕ → ℕ → ℕ
count_tiers accumulated [] tier = tier
count_tiers accumulated (threshold ∷ rest) tier =
    let next = count_tiers accumulated rest (tier + 1) in
    if leb threshold accumulated then next else tier

unfoldable pub derive_splendor_tier : ℕ → ℕ
unfolding count_tiers
derive_splendor_tier accumulated =
    if leb accumulated 0 then 0 else count_tiers accumulated splendor_thresholds 0
