-- ===== src/Diff/Age.antt =====
-- The age at death that `compute_death_age` reads off two dates of a save.
use ck3_llm_chronicler.Base.{
  ℕ, ◌+◌, ◌-◌, ◌/◌, ◌%◌, ◌≤◌, ◌<◌, String, true, ◌&&◌, ◌||◌, List, [], ◌∷◌, ◌++◌, decimal, some,
  ◌≡◌, ◌≢◌, refl, sym, ap, ◌∙◌, arith, inl, inr, ltb, ◌==◌, if◌then◌else◌, codes, value, text_order,
  ◌≡?◌, eq_of_≡?, Bool-cases,
}
use ck3_llm_chronicler.Dates.{iso_text}
use ck3_llm_chronicler.Dates.Calendar.{iso_text-eq-iso_digits, two_lt, dash_lt, nil_lt}
use ck3_llm_chronicler.Dates.RoundTrip.{save_date, parse_ck3_date-save_date, decimal-ne-nil}
use ck3_llm_chronicler.Diff.Types.{non_empty}
use ck3_llm_chronicler.Diff.Make.{age_between, compute_death_age}

-- The full years between two dates of the calendar: one less before the birthday in the last year,
-- and none when the death comes before the birth.
abbrev pub calendar_age : ℕ × ℕ × ℕ → ℕ × ℕ × ℕ → ℕ
calendar_age (y, m, d) (y', m', d') =
    if ltb m' m || ((m' == m) && ltb d' d) then y' - y - 1 else y' - y

-- The bounds that the parser checks, and a year of at most four digits.
pub record IsDate (y m d : ℕ) : Type 0 where
  pub year : 1 ≤ y
  pub year_lt : y < 10000
  pub month : 1 ≤ m
  pub month_le : m ≤ 12
  pub day : 1 ≤ d
  pub day_le : d ≤ 31

four_value :
    (y : ℕ)
    → y < 10000
    → value 0
        ((b'0' + y / 1000) ∷ (b'0' + y / 100 % 10) ∷ (b'0' + y / 10 % 10) ∷ (b'0' + y % 10) ∷ [])
      ≡ y
unfolding value
four_value y h = ground arith

age_between-iso_text :
    (y m d y' m' d' : ℕ)
    → y < 10000
    → m < 100
    → d < 100
    → y' < 10000
    → m' < 100
    → d' < 100
    → age_between (iso_text y m d) (iso_text y' m' d') ≡ calendar_age (y, m, d) (y', m', d')
unfolding age_between
age_between-iso_text y m d y' m' d' hy hm hd hy' hm' hd' =
    rw
      (
        iso_text-eq-iso_digits y m d hy hm hd,
        iso_text-eq-iso_digits y' m' d' hy' hm' hd',
        four_value y hy,
        four_value y' hy',
        two_lt m' m (b'-' ∷ (b'0' + d' / 10) ∷ (b'0' + d' % 10) ∷ [])
            (b'-' ∷ (b'0' + d / 10) ∷ (b'0' + d % 10) ∷ []) hm' hm,
        dash_lt ((b'0' + d' / 10) ∷ (b'0' + d' % 10) ∷ []) ((b'0' + d / 10) ∷ (b'0' + d % 10) ∷ []),
        two_lt d' d [] [] hd' hd,
        nil_lt,
      )
      (ground arith)

cons-ne-nil : {A : Type 0} (a : A) (s : List A) → (a ∷ s) ≢ []
cons-ne-nil a s e = cc

-- The text of a date is not empty.
non_empty-save_date : (s : String) (y m d : ℕ) → codes s ≡ save_date y m d → non_empty s ≡ true
unfolding save_date
non_empty-save_date s y m d e = elim (Bool-cases (s ≡? "")) [
  | inr h ↦ rw h refl
  | inl h ↦
      let (c, t, n) = decimal-ne-nil y in
      let bad : codes "" ≡ save_date y m d = sym (ap codes (eq_of_≡? s "" h)) ∙ e in
      let long : save_date y m d ≡ c ∷ (t ++ (b'.' ∷ (decimal m ++ (b'.' ∷ decimal d)))) =
        rw (n, save_date) refl in
      absurd (cons-ne-nil c _ (sym long ∙ sym bad))
]

-- For any birth and death written as a save writes dates, in years from 1 to 9999, with months up to
-- 12 and days up to 31, `compute_death_age` is the number of full years between the two: the
-- difference of the years, less one if the death comes before the birthday in its year, and 0 if the
-- death comes before the birth.
pub compute_death_age-calendar_age :
    (birth died : String) (y m d y' m' d' : ℕ)
    → codes birth ≡ save_date y m d
    → codes died ≡ save_date y' m' d'
    → IsDate y m d
    → IsDate y' m' d'
    → compute_death_age (some birth) (some died) ≡ some (calendar_age (y, m, d) (y', m', d'))
unfolding compute_death_age
compute_death_age-calendar_age birth died y m d y' m' d' e e' h h' =
    rw
      (
        non_empty-save_date birth y m d e,
        non_empty-save_date died y' m' d' e',
        e,
        e',
        parse_ck3_date-save_date y m d h.year h.month h.month_le h.day h.day_le,
        parse_ck3_date-save_date y' m' d' h'.year h'.month h'.month_le h'.day h'.day_le,
      )
      (ap some (
        age_between-iso_text y m d y' m' d' h.year_lt (omega (arith, h.month_le))
          (omega (arith, h.day_le)) h'.year_lt (omega (arith, h'.month_le))
          (omega (arith, h'.day_le))))
