-- ===== src/Dates.antt =====
-- src/chronicler/util/dates.py: CK3's two date forms, parsed to ISO 8601 text.
-- The two regular expressions are scanners by clauses. No part of either can match in two ways, so
-- the longest run of digits, letters or spaces is the one that the expression takes. `\d` and `\w`
-- are read over ASCII; `\s` is Python's whitespace.
pub mod Calendar
pub mod RoundTrip
pub mod Ordering
pub mod Accepts
use ck3_llm_chronicler.Base.{
  ℕ, zero, suc, ◌+◌, ◌≤◌, ◌<◌, String, Bool, true, false, not, ◌&&◌, ◌||◌, List, [], ◌∷◌, ◌++◌,
  Option, none, some, ◌≡◌, refl, arith, ltb, leb, ◌==◌, if◌then◌else◌, any, Text, codes, is_digit,
  value, decimal, zero_pad, Dict, get,
}

infixl 5 ◌>>=◌ ◌>>◌
abbrev pub ◌>>=◌ {ℓ κ} : {A : Type ℓ} {B : Type κ} → Option A → (A → Option B) → Option B
none >>= f = none
some a >>= f = f a

abbrev pub ◌>>◌ : {B : Type 0} → Option (Unit {0}) → Option B → Option B
m >> k = m >>= λ _. k

abbrev pub guard : Bool → Option (Unit {0})
guard true = some tt
guard false = none

abbrev pub months : Dict String ℕ
months =
    ("January", 1)
    ∷ ("February", 2)
    ∷ ("March", 3)
    ∷ ("April", 4)
    ∷ ("May", 5)
    ∷ ("June", 6)
    ∷ ("July", 7)
    ∷ ("August", 8)
    ∷ ("September", 9)
    ∷ ("October", 10)
    ∷ ("November", 11)
    ∷ ("December", 12)
    ∷ []

-- Python's `str.isspace`, which is `\s`
unfoldable pub is_space : ℕ → Bool
is_space c =
    (leb 9 c && leb c 13)
    || (leb 28 c && leb c 32)
    || (leb 8192 c && leb c 8202)
    || any (133 ∷ 160 ∷ 5760 ∷ 8232 ∷ 8233 ∷ 8239 ∷ 8287 ∷ 12288 ∷ []) (λ s. c == s)

-- `\w` over ASCII
pub is_word : ℕ → Bool
unfolding is_digit
is_word c = is_digit c || (leb b'a' c && leb c b'z') || (leb b'A' c && leb c b'Z') || (c == b'_')

-- `\s*`
unfoldable pub skip_spaces : Text → Text
unfolding is_space
skip_spaces [] = []
skip_spaces (c ∷ s) = let rest = skip_spaces s in if is_space c then rest else c ∷ s

-- `\s+`
pub some_spaces : Text → Option Text
unfolding skip_spaces
some_spaces [] = none
some_spaces (c ∷ s) = if is_space c then some (skip_spaces s) else none

-- The longest run of at most `n` characters that pass, and what follows it.
unfoldable pub span : ℕ → (ℕ → Bool) → Text → Text × Text
span zero p s = ([], s)
span (suc n) p [] = ([], [])
span (suc n) p (c ∷ s) = let rest = span n p s in if p c then (c ∷ rest.0, rest.1) else ([], c ∷ s)

abbrev pub run_length : Text → ℕ
run_length [] = 0
run_length (c ∷ s) = suc (run_length s)

-- A run of one to `n` characters that pass.
unfoldable pub some_run : ℕ → (ℕ → Bool) → Text → Option (Text × Text)
unfolding span
some_run n p s = let found = span n p s in elim found.0 [ [] ↦ none | c ∷ r ↦ some found ]

-- `\d{1,2}`
unfoldable pub one_or_two_digits : Text → Option (Text × Text)
unfolding some_run is_digit
one_or_two_digits s = some_run 2 is_digit s

-- `\d+`
unfoldable pub all_digits : Text → Option (Text × Text)
unfolding some_run is_digit
all_digits s = some_run (run_length s) is_digit s

-- A literal part of an expression.
unfoldable pub expect : Text → Text → Option Text
expect [] s = some s
expect (c ∷ t) [] = none
expect (c ∷ t) (d ∷ s) = let rest = expect t s in if c == d then rest else none

-- `\s*$`
unfoldable pub at_end : Text → Option (Unit {0})
unfolding skip_spaces
at_end s = elim (skip_spaces s) [ [] ↦ some tt | c ∷ r ↦ none ]

-- `(?:st|nd|rd|th)`
unfoldable pub day_suffix : Text → Option Text
unfolding expect
day_suffix s = elim (expect (codes "st") s) [
  | some r ↦ some r
  | none ↦ elim (expect (codes "nd") s) [
    | some r ↦ some r
    | none ↦ elim (expect (codes "rd") s) [ some r ↦ some r | none ↦ expect (codes "th") s ]
  ]
]

-- `f"{year:04d}-{month:02d}-{day:02d}"`
unfoldable pub iso_text : ℕ → ℕ → ℕ → Text
unfolding decimal zero_pad
iso_text year month day =
    zero_pad 4 (decimal year)
    ++ (b'-' ∷ (zero_pad 2 (decimal month) ++ (b'-' ∷ zero_pad 2 (decimal day))))

-- `_SHORT_DATE_RE`: the year, the month and the day as they are written
unfoldable pub match_short : Text → Option (ℕ × ℕ × ℕ)
match_short text = do
  (year, s) ← all_digits (skip_spaces text)
  s ← expect (b'.' ∷ []) s
  (month, s) ← one_or_two_digits s
  s ← expect (b'.' ∷ []) s
  (day, s) ← one_or_two_digits s
  at_end s
  some (value 0 year, value 0 month, value 0 day)

-- `if year <= 0 or not (1 <= month <= 12) or not (1 <= day <= 31): return None`
unfoldable pub check_short : ℕ × ℕ × ℕ → Option Text
unfolding iso_text
check_short (year, month, day) =
    if leb year 0 || not (leb 1 month && leb month 12) || not (leb 1 day && leb day 31)
    then none
    else some (iso_text year month day)

unfoldable pub parse_ck3_short_date : Text → Option Text
parse_ck3_short_date text = match_short text >>= check_short

-- The month as `_MONTHS` has it.
pub month_named : Text → Dict String ℕ → Option ℕ
month_named name [] = none
month_named name ((s, n) ∷ m) =
    let rest = month_named name m in
    elim (expect (codes s) name) [ some [] ↦ some n | some (c ∷ r) ↦ rest | none ↦ rest ]

-- `_LONG_DATE_RE`: the day, the month's name and the year
unfoldable pub match_long : Text → Option (ℕ × Text × ℕ)
match_long text = do
  (day, s) ← one_or_two_digits (skip_spaces text)
  s ← day_suffix s
  s ← some_spaces s
  s ← expect (codes "of") s
  s ← some_spaces s
  (month, s) ← some_run (run_length s) is_word s
  s ← expect (codes ",") s
  s ← some_spaces s
  (year, s) ← all_digits s
  s ← some_spaces s
  s ← expect (codes "AD") s
  at_end s
  some (value 0 day, month, value 0 year)

unfoldable pub parse_ck3_long_date : Text → Option Text
parse_ck3_long_date text = do
  (day, name, year) ← match_long text
  month ← month_named name months
  guard (leb 1 day && leb day 31)
  guard (not (leb year 0))
  some (iso_text year month day)

-- `parse_ck3_long_date(text) or parse_ck3_short_date(text)`: a parsed date is never empty
unfoldable pub parse_ck3_date : Text → Option Text
parse_ck3_date text = elim (parse_ck3_long_date text) [
  | some iso ↦ some iso
  | none ↦ parse_ck3_short_date text
]

-- All that a run of the parsers computes with.
unfoldable pub runs : Unit {0}
unfolding parse_ck3_date parse_ck3_long_date parse_ck3_short_date match_long match_short check_short
    month_named iso_text skip_spaces some_spaces all_digits one_or_two_digits some_run is_word
    expect at_end value day_suffix
runs = tt

long_form : parse_ck3_date (codes "16th of September, 1066 AD") ≡ some (codes "1066-09-16")
unfolding runs
long_form = refl

early_form : parse_ck3_date (codes " 1st of January, 867 AD ") ≡ some (codes "0867-01-01")
unfolding runs
early_form = refl

short_form : parse_ck3_date (codes "1066.9.16") ≡ some (codes "1066-09-16")
unfolding runs
short_form = refl

refused :
    (parse_ck3_date (codes "1066.13.1") ≡ none)
    × (parse_ck3_date (codes "0.1.1") ≡ none)
    × (parse_ck3_date (codes "16th of Brumaire, 1066 AD") ≡ none)
    × (parse_ck3_date (codes "1066.9") ≡ none)
unfolding runs
refused = (refl, refl, refl, refl)
