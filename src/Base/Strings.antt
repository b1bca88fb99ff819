-- ===== src/Base/Strings.antt =====
-- Text as its code points, with the decimal printing and reading of Python's `f"{n:04d}"` and
-- `int(...)`.
use ck3_llm_chronicler.Base.Lists.{length}
use ck3_llm_chronicler.Base.Tests.{ltb, leb, ◌==◌, if◌then◌else◌}
use Prim.Native.Char.{code}
use Prim.Native.Nat.{ℕ, zero, suc, ◌+◌, ◌-◌, ◌*◌, ◌/◌, ◌%◌, ◌<◌}
use Prim.Native.String.{String}
use mathlib.Core.Bool.{Bool, true, false, ◌&&◌, ◌||◌}
use mathlib.Core.List.{List, [], ◌∷◌, ◌++◌}
use mathlib.Core.Path.{◌≡◌, ap}
use native.Mathlib.Omega.{arith}

abbrev pub Text : Type 0
Text = List ℕ

abbrev pub codes : String → Text
codes String.[] = []
codes (String.◌∷◌ c s) = code c ∷ codes s

module _ {ℓ} {A : Type ℓ} where
  abbrev pub take : ℕ → List A → List A
  take zero xs = []
  take (suc n) [] = []
  take (suc n) (x ∷ xs) = x ∷ take n xs

  abbrev pub drop : ℕ → List A → List A
  drop zero xs = xs
  drop (suc n) [] = []
  drop (suc n) (x ∷ xs) = drop n xs

  abbrev pub replicate : ℕ → A → List A
  replicate zero a = []
  replicate (suc n) a = a ∷ replicate n a

-- `s < t`, by code points
unfoldable pub text_lt : Text → Text → Bool
text_lt s [] = false
text_lt [] (d ∷ t) = true
text_lt (c ∷ s) (d ∷ t) = let rest = text_lt s t in ltb c d || ((c == d) && rest)

unfoldable pub is_digit : ℕ → Bool
is_digit c = leb b'0' c && leb c b'9'

-- The number that digits spell behind `n`.
unfoldable pub value : ℕ → Text → ℕ
value n [] = n
value n (c ∷ s) = value (n * 10 + (c - b'0')) s

-- One digit for each round; `n + 4` rounds are more than enough.
unfoldable pub decimal_from : ℕ → ℕ → Text → Text
decimal_from zero n out = out
decimal_from (suc f) n out =
    let rest = decimal_from f (n / 10) ((b'0' + n % 10) ∷ out) in
    if ltb n 10 then (b'0' + n) ∷ out else rest

unfoldable pub decimal : ℕ → Text
unfolding decimal_from
decimal n = decimal_from (n + 4) n []

-- `f"{n:0wd}"`
unfoldable pub zero_pad : ℕ → Text → Text
zero_pad w s = replicate (w - length s) b'0' ++ s

value-decimal_from : (f n : ℕ) (out : Text) → n < f → value 0 (decimal_from f n out) ≡ value n out
unfolding value decimal_from
value-decimal_from zero n out h = elim h [ ]
value-decimal_from (suc f) n out h = ground (
  arith,
  value-decimal_from f (n / 10) ((b'0' + n % 10) ∷ out),
  ap (λ (k : ℕ). value k out) (let e : n / 10 * 10 + (b'0' + n % 10 - b'0') ≡ n = omega arith in e),
  ap (λ (k : ℕ). value k out) (let e : 0 * 10 + (b'0' + n - b'0') ≡ n = omega arith in e),
)

-- Printing loses nothing: the rounds suffice at every number.
pub value-decimal : (n : ℕ) → value 0 (decimal n) ≡ n
unfolding decimal value
value-decimal n = value-decimal_from (n + 4) n [] (omega arith)

two_digits_from :
    (f n : ℕ)
    → n < 100
    → zero_pad 2 (decimal_from (suc (suc f)) n []) ≡ (b'0' + n / 10) ∷ (b'0' + n % 10) ∷ []
unfolding zero_pad decimal_from
two_digits_from f n h = ground arith

pub two_digits : (n : ℕ) → n < 100 → zero_pad 2 (decimal n) ≡ (b'0' + n / 10) ∷ (b'0' + n % 10) ∷ []
unfolding decimal
two_digits n h =
    let e : n + 4 ≡ suc (suc (n + 2)) = omega arith in rw e (two_digits_from (n + 2) n h)

four_digits_from :
    (f n : ℕ)
    → n < 10000
    → zero_pad 4 (decimal_from (suc (suc (suc (suc f)))) n [])
      ≡ (b'0' + n / 1000) ∷ (b'0' + n / 100 % 10) ∷ (b'0' + n / 10 % 10) ∷ (b'0' + n % 10) ∷ []
unfolding zero_pad decimal_from
four_digits_from f n h = ground arith

pub four_digits :
    (n : ℕ)
    → n < 10000
    → zero_pad 4 (decimal n)
      ≡ (b'0' + n / 1000) ∷ (b'0' + n / 100 % 10) ∷ (b'0' + n / 10 % 10) ∷ (b'0' + n % 10) ∷ []
unfolding decimal
four_digits n h =
    let e : n + 4 ≡ suc (suc (suc (suc n))) = omega arith in rw e (four_digits_from n n h)
