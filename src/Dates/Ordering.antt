-- ===== src/Dates/Ordering.antt =====
-- src/chronicler/util/dates.py: the ISO texts that the parser makes of the dates of a save order as the
-- dates do.
use ck3_llm_chronicler.Base.{ℕ, ◌≤◌, ◌<◌, some, ◌≡◌, arith, Text, text_lt}
use ck3_llm_chronicler.Dates.{iso_text, parse_ck3_date}
use ck3_llm_chronicler.Dates.Calendar.{date_lt, text_lt-iso_text}
use ck3_llm_chronicler.Dates.RoundTrip.{save_date, parse_ck3_date-save_date}

-- A date of the game, of a year below 10000.
abbrev pub IsDate : ℕ → ℕ → ℕ → Type 0
IsDate y m d = (1 ≤ y) × (y < 10000) × (1 ≤ m) × (m ≤ 12) × (1 ≤ d) × (d ≤ 31)

date_parsed : (y m d : ℕ) → IsDate y m d → parse_ck3_date (save_date y m d) ≡ some (iso_text y m d)
date_parsed y m d (y₁, y₂, m₁, m₂, d₁, d₂) = parse_ck3_date-save_date y m d y₁ m₁ m₂ d₁ d₂

-- Two dates of years from 1 to 9999, with months from 1 to 12 and days from 1 to 31, written without
-- padding as a save has them, both parse, and the two texts that come out compare, code point by code
-- point, as the dates do on the calendar, although the texts of the save do not.
pub parse_ck3_date-orders :
    (y m d y' m' d' : ℕ)
    → IsDate y m d
    → IsDate y' m' d'
    → (a : Text) × (b : Text) × (parse_ck3_date (save_date y m d) ≡ some a)
      × (parse_ck3_date (save_date y' m' d') ≡ some b)
      × (text_lt a b ≡ date_lt (y, m, d) (y', m', d'))
parse_ck3_date-orders y m d y' m' d' h h' =
    let (y₁, y₂, m₁, m₂, d₁, d₂) = h in
    let (z₁, z₂, n₁, n₂, e₁, e₂) = h' in
    (
      iso_text y m d,
      iso_text y' m' d',
      date_parsed y m d h,
      date_parsed y' m' d' h',
      text_lt-iso_text y m d y' m' d' y₂ (omega arith) (omega arith) z₂ (omega arith) (omega arith),
    )
