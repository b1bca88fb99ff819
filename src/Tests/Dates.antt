-- ===== src/Tests/Dates.antt =====
-- The theorems of the dates and of the splendor tiers at some values.
use ck3_llm_chronicler.Base.{◌≤◌, some, ◌≡◌, refl, arith, Text, codes, value, text_lt}
use ck3_llm_chronicler.Dates.{parse_ck3_date, parse_ck3_short_date, iso_text, runs}
use ck3_llm_chronicler.Dates.Calendar.{date_lt}
use ck3_llm_chronicler.Dates.Ordering.{parse_ck3_date-orders}
use ck3_llm_chronicler.Dates.Accepts.{IsShort, parse_ck3_short_date-accepts}
use ck3_llm_chronicler.Dates.RoundTrip.{save_date, parse_ck3_date-save_date}
use ck3_llm_chronicler.Splendor.{derive_splendor_tier, splendor_thresholds, renown}
use ck3_llm_chronicler.Splendor.Tiers.{reached, derive_splendor_tier_lem}

parse_ck3_date-save_date_example :
    parse_ck3_date (save_date 1066 10 14) ≡ some (iso_text 1066 10 14)
parse_ck3_date-save_date_example =
    parse_ck3_date-save_date 1066 10 14 (omega arith) (omega arith) (omega arith) (omega arith)
      (omega arith)

-- The text of the save for the later date is the lesser one.
parse_ck3_date-orders_example :
    (a : Text) × (b : Text) × (parse_ck3_date (save_date 1066 9 16) ≡ some a)
    × (parse_ck3_date (save_date 1066 10 1) ≡ some b)
    × (text_lt a b ≡ date_lt (1066, 9, 16) (1066, 10, 1))
parse_ck3_date-orders_example =
    parse_ck3_date-orders 1066 9 16 1066 10 1
      (omega arith, omega arith, omega arith, omega arith, omega arith, omega arith)
      (omega arith, omega arith, omega arith, omega arith, omega arith, omega arith)

spaced : parse_ck3_short_date (codes " 0867.01.1 ") ≡ some (iso_text 867 1 1)
unfolding runs
spaced = refl

parse_ck3_short_date-accepts_example :
    (year : Text) × (month : Text) × (day : Text) × IsShort (codes " 0867.01.1 ") year month day
    × (1 ≤ value 0 year)
    × (1 ≤ value 0 month)
    × (value 0 month ≤ 12)
    × (1 ≤ value 0 day)
    × (value 0 day ≤ 31)
    × (iso_text 867 1 1 ≡ iso_text (value 0 year) (value 0 month) (value 0 day))
parse_ck3_short_date-accepts_example = parse_ck3_short_date-accepts (codes " 0867.01.1 ") spaced

derive_splendor_tier_example :
    (derive_splendor_tier (renown 1200) ≡ reached (renown 1200) splendor_thresholds)
    × (derive_splendor_tier (renown 1200) ≤ 6)
    × (renown 1200 ≤ renown 5000
        → derive_splendor_tier (renown 1200) ≤ derive_splendor_tier (renown 5000))
derive_splendor_tier_example = derive_splendor_tier_lem (renown 1200) (renown 5000)
