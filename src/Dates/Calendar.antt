-- ===== src/Dates/Calendar.antt =====
-- What the ISO text of a date says: it orders as the calendar does, and its parts can be read back.
use ck3_llm_chronicler.Base.{
  ℕ, ◌+◌, ◌/◌, ◌%◌, ◌≤◌, ◌<◌, Bool, false, ◌&&◌, ◌||◌, [], ◌∷◌, Option, some, none, ◌≡◌, refl,
  arith, ltb, ◌==◌, Text, text_lt, two_digits, four_digits,
}
use ck3_llm_chronicler.Dates.{iso_text, check_short, ◌>>=◌}

-- `(y, m, d) < (y', m', d')` on the calendar
abbrev pub date_lt : ℕ × ℕ × ℕ → ℕ × ℕ × ℕ → Bool
date_lt (y, m, d) (y', m', d') = ltb y y' || ((y == y') && (ltb m m' || ((m == m') && ltb d d')))

-- Four, two and two digits, as the format string pads them.
abbrev pub iso_digits : ℕ → ℕ → ℕ → Text
iso_digits y m d =
    (b'0' + y / 1000)
    ∷ (b'0' + y / 100 % 10)
    ∷ (b'0' + y / 10 % 10)
    ∷ (b'0' + y % 10)
    ∷ b'-'
    ∷ (b'0' + m / 10)
    ∷ (b'0' + m % 10)
    ∷ b'-'
    ∷ (b'0' + d / 10)
    ∷ (b'0' + d % 10)
    ∷ []

pub iso_text-eq-iso_digits :
    (y m d : ℕ) → y < 10000 → m < 100 → d < 100 → iso_text y m d ≡ iso_digits y m d
unfolding iso_text
iso_text-eq-iso_digits y m d hy hm hd =
    rw (four_digits y hy) (rw (two_digits m hm) (rw (two_digits d hd)))

pub two_lt :
    (a b : ℕ) (s t : Text)
    → a < 100
    → b < 100
    → text_lt ((b'0' + a / 10) ∷ (b'0' + a % 10) ∷ s) ((b'0' + b / 10) ∷ (b'0' + b % 10) ∷ t)
      ≡ (ltb a b || ((a == b) && text_lt s t))
unfolding text_lt
two_lt a b s t ha hb = ground arith

pub dash_lt : (s t : Text) → text_lt (b'-' ∷ s) (b'-' ∷ t) ≡ text_lt s t
unfolding text_lt
dash_lt s t = refl

pub nil_lt : text_lt [] [] ≡ false
unfolding text_lt
nil_lt = refl

-- A four-digit number is two pairs of digits.
four_lt :
    (a b : ℕ) (s t : Text)
    → a < 10000
    → b < 10000
    → text_lt
        ((b'0' + a / 1000) ∷ (b'0' + a / 100 % 10) ∷ (b'0' + a / 10 % 10) ∷ (b'0' + a % 10) ∷ s)
        ((b'0' + b / 1000) ∷ (b'0' + b / 100 % 10) ∷ (b'0' + b / 10 % 10) ∷ (b'0' + b % 10) ∷ t)
      ≡ (ltb a b || ((a == b) && text_lt s t))
unfolding text_lt
four_lt a b s t ha hb = ground arith

-- ISO texts of years below 10000 compare as the dates do.
pub text_lt-iso_text :
    (y m d y' m' d' : ℕ)
    → y < 10000
    → m < 100
    → d < 100
    → y' < 10000
    → m' < 100
    → d' < 100
    → text_lt (iso_text y m d) (iso_text y' m' d') ≡ date_lt (y, m, d) (y', m', d')
text_lt-iso_text y m d y' m' d' hy hm hd hy' hm' hd' = rw (iso_text-eq-iso_digits y m d hy hm hd) (
    rw (iso_text-eq-iso_digits y' m' d' hy' hm' hd') (
      rw (four_lt y y' _ _ hy hy') (
        rw dash_lt (
          rw (two_lt m m' _ _ hm hm')
            (rw dash_lt (rw (two_lt d d' _ _ hd hd') (ground (arith, nil_lt))))))))

pub check_short_sound :
    (y m d : ℕ) {iso : Text}
    → check_short (y, m, d) ≡ some iso
    → (1 ≤ y) × (1 ≤ m) × (m ≤ 12) × (1 ≤ d) × (d ≤ 31) × (iso ≡ iso_text y m d)
unfolding check_short
check_short_sound y m d h = ground arith

pub >>=-eq-some :
    {A B : Type 0} (o : Option A) (f : A → Option B) {b : B}
    → (o >>= f) ≡ some b
    → (a : A) × (o ≡ some a) × (f a ≡ some b)
>>=-eq-some none f h = cc
>>=-eq-some (some a) f h = (a, refl, h)
