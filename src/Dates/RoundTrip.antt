-- ===== src/Dates/RoundTrip.antt =====
-- The date that CK3 writes as YYYY.M.D, unpadded, is read back.
use ck3_llm_chronicler.Base.{
  ℕ, zero, suc, ◌+◌, ◌/◌, ◌%◌, ◌≤◌, ◌<◌, Bool, true, false, [], ◌∷◌, ◌++◌, some, none, ◌≡◌, refl,
  arith, ltb, if◌then◌else◌, Text, decimal, decimal_from, is_digit, All, length, value-decimal,
  Bool-cases, inl, inr, ◌⊎◌,
}
use ck3_llm_chronicler.Dates.{
  iso_text, span, some_run, run_length, all_digits, one_or_two_digits, expect, at_end, skip_spaces,
  is_space, match_short, check_short, parse_ck3_short_date, parse_ck3_long_date, parse_ck3_date,
  day_suffix, match_long,
}

abbrev Digits : Text → Type 0
Digits = All (λ c. is_digit c ≡ true)

decimal_from-Digits : (f n : ℕ) (out : Text) → Digits out → Digits (decimal_from f n out)
unfolding decimal_from is_digit
decimal_from-Digits zero n out h = h
decimal_from-Digits (suc f) n out h =
    ground (arith, decimal_from-Digits f (n / 10) ((b'0' + n % 10) ∷ out))

decimal-Digits : (n : ℕ) → Digits (decimal n)
unfolding decimal
decimal-Digits n = decimal_from-Digits (n + 4) n [] tt

-- A run that ends before `c` is taken whole.
span_run :
    (n : ℕ) (p : ℕ → Bool) (s rest : Text) (c : ℕ)
    → All (λ d. p d ≡ true) s
    → length s ≤ n
    → p c ≡ false
    → span n p (s ++ (c ∷ rest)) ≡ (s, c ∷ rest)
unfolding span
span_run zero p [] rest c h le stop = refl
span_run zero p (d ∷ s) rest c h le stop = elim le [ ]
span_run (suc n) p [] rest c h le stop = rw stop
span_run (suc n) p (d ∷ s) rest c (hd, h) le stop =
    rw (span_run n p s rest c h (omega arith) stop) (rw hd)

span_end :
    (n : ℕ) (p : ℕ → Bool) (s : Text)
    → All (λ d. p d ≡ true) s
    → length s ≤ n
    → span n p s ≡ (s, [])
unfolding span
span_end zero p [] h le = refl
span_end zero p (d ∷ s) h le = elim le [ ]
span_end (suc n) p [] h le = refl
span_end (suc n) p (d ∷ s) (hd, h) le = rw (span_end n p s h (omega arith)) (rw hd)

decimal_from-ne-nil :
    (f n : ℕ) (out : Text) → (c : ℕ) × (s : Text) × (decimal_from (suc f) n out ≡ c ∷ s)
unfolding decimal_from
decimal_from-ne-nil zero n out = elim (Bool-cases (ltb n 10)) [
  | inl e ↦ (b'0' + n, out, rw e)
  | inr e ↦ (b'0' + n % 10, out, rw e)
]
decimal_from-ne-nil (suc f) n out = elim (Bool-cases (ltb n 10)) [
  | inl e ↦ (b'0' + n, out, rw e)
  | inr e ↦ let (c, s, h) = decimal_from-ne-nil f (n / 10) ((b'0' + n % 10) ∷ out) in (c, s, rw e h)
]

pub decimal-ne-nil : (n : ℕ) → (c : ℕ) × (s : Text) × (decimal n ≡ c ∷ s)
unfolding decimal
decimal-ne-nil n =
    let e : n + 4 ≡ suc (n + 3) = omega arith in rw e (decimal_from-ne-nil (n + 3) n [])

length-decimal_from : (f n : ℕ) → n < 100 → length (decimal_from (suc (suc f)) n []) ≤ 2
unfolding decimal_from
length-decimal_from f n h = ground arith

length-decimal : (n : ℕ) → n < 100 → length (decimal n) ≤ 2
unfolding decimal
length-decimal n h =
    let e : n + 4 ≡ suc (suc (n + 2)) = omega arith in rw e (length-decimal_from (n + 2) n h)

length-le-run_length : (s rest : Text) → length s ≤ run_length (s ++ rest)
length-le-run_length [] rest = omega arith
length-le-run_length (c ∷ s) rest = omega (arith, length-le-run_length s rest)

found_run :
    (n : ℕ) (p : ℕ → Bool) (s t rest : Text) (c : ℕ) (r : Text)
    → t ≡ c ∷ r
    → span n p s ≡ (t, rest)
    → some_run n p s ≡ some (t, rest)
unfolding some_run
found_run n p s t rest c r e h = ground arith

some_run_of_span :
    (n : ℕ) (p : ℕ → Bool) (s t rest : Text)
    → ((c : ℕ) × (r : Text) × (t ≡ c ∷ r))
    → span n p s ≡ (t, rest)
    → some_run n p s ≡ some (t, rest)
some_run_of_span n p s t rest (c, r, e) h = found_run n p s t rest c r e h

year_read :
    (y c : ℕ) (rest : Text)
    → is_digit c ≡ false
    → all_digits (decimal y ++ (c ∷ rest)) ≡ some (decimal y, c ∷ rest)
unfolding all_digits
year_read y c rest stop =
    let s : Text = decimal y ++ (c ∷ rest) in
    some_run_of_span (run_length s) is_digit s (decimal y) (c ∷ rest) (decimal-ne-nil y) (
      span_run (run_length s) is_digit (decimal y) rest c (decimal-Digits y)
        (length-le-run_length (decimal y) (c ∷ rest)) stop)

month_read :
    (m c : ℕ) (rest : Text)
    → m < 100
    → is_digit c ≡ false
    → one_or_two_digits (decimal m ++ (c ∷ rest)) ≡ some (decimal m, c ∷ rest)
unfolding one_or_two_digits
month_read m c rest h stop =
    some_run_of_span 2 is_digit (decimal m ++ (c ∷ rest)) (decimal m) (c ∷ rest) (decimal-ne-nil m)
      (span_run 2 is_digit (decimal m) rest c (decimal-Digits m) (length-decimal m h) stop)

day_read : (d : ℕ) → d < 100 → one_or_two_digits (decimal d) ≡ some (decimal d, [])
unfolding one_or_two_digits
day_read d h =
    some_run_of_span 2 is_digit (decimal d) (decimal d) [] (decimal-ne-nil d)
      (span_end 2 is_digit (decimal d) (decimal-Digits d) (length-decimal d h))

digit_no_space : (c : ℕ) (s : Text) → is_digit c ≡ true → skip_spaces (c ∷ s) ≡ c ∷ s
unfolding skip_spaces is_space is_digit
digit_no_space c s h = ground arith

no_spaces : (n : ℕ) (rest : Text) → skip_spaces (decimal n ++ rest) ≡ decimal n ++ rest
no_spaces n rest =
    let (c, s, e) = decimal-ne-nil n in
    let digits : Digits (c ∷ s) = rw e at (decimal-Digits n) in
    rw e (digit_no_space c (s ++ rest) digits.0)

-- A date as CK3 writes it in a save: no padding.
unfoldable pub save_date : ℕ → ℕ → ℕ → Text
save_date y m d = decimal y ++ (b'.' ∷ (decimal m ++ (b'.' ∷ decimal d)))

dot_stops : is_digit b'.' ≡ false
unfolding is_digit
dot_stops = refl

dot_read : (s : Text) → expect (b'.' ∷ []) (b'.' ∷ s) ≡ some s
unfolding expect
dot_read s = refl

end_read : at_end [] ≡ some tt
unfolding at_end
end_read = refl

match_short-save_date :
    (y m d : ℕ) → m < 100 → d < 100 → match_short (save_date y m d) ≡ some (y, m, d)
unfolding match_short save_date
match_short-save_date y m d hm hd =
    let e₁ = no_spaces y (b'.' ∷ (decimal m ++ (b'.' ∷ decimal d))) in
    let e₂ = year_read y b'.' (decimal m ++ (b'.' ∷ decimal d)) dot_stops in
    let e₃ = month_read m b'.' (decimal d) hm dot_stops in
    rw e₁ (
      rw e₂ (
        rw dot_read (
          rw e₃ (
            rw dot_read (
              rw (day_read d hd) (
                rw end_read
                  (rw (value-decimal y) (rw (value-decimal m) (rw (value-decimal d))))))))))

-- Any date from year 1 on with a month up to 12 and a day up to 31, written without padding as a
-- save has it, parses as a short date to its ISO text.
pub parse_ck3_short_date-save_date :
    (y m d : ℕ)
    → 1 ≤ y
    → 1 ≤ m
    → m ≤ 12
    → 1 ≤ d
    → d ≤ 31
    → parse_ck3_short_date (save_date y m d) ≡ some (iso_text y m d)
unfolding parse_ck3_short_date
parse_ck3_short_date-save_date y m d hy hm hm' hd hd' =
    rw (match_short-save_date y m d (omega arith) (omega arith), parse_ck3_short_date)
      (unfold check_short in ground arith)

-- After one or two digits the long form wants a suffix, and finds a digit or the dot.
no_day : (c : ℕ) (s : Text) → (is_digit c ≡ true) ⊎ (c ≡ b'.') → day_suffix (c ∷ s) ≡ none
unfolding day_suffix is_digit
no_day c s h = ground arith

first_two :
    (c d : ℕ) (s : Text)
    → is_digit c ≡ true
    → one_or_two_digits (c ∷ d ∷ s) ≡ some (if is_digit d then (c ∷ d ∷ [], s) else (c ∷ [], d ∷ s))
unfolding one_or_two_digits
first_two c d s h = ground arith

no_match_long : (s r : Text) (c : ℕ) → Digits (c ∷ s) → match_long (c ∷ (s ++ (b'.' ∷ r))) ≡ none
unfolding match_long
no_match_long [] r c (h, t) =
    rw (digit_no_space c (b'.' ∷ r) h)
      (rw (first_two c b'.' r h) (rw dot_stops (rw (no_day b'.' r (inr refl)))))
no_match_long (d ∷ []) r c (h, (k, t)) =
    rw (digit_no_space c (d ∷ b'.' ∷ r) h)
      (rw (first_two c d (b'.' ∷ r) h) (rw k (rw (no_day b'.' r (inr refl)))))
no_match_long (d ∷ e ∷ s) r c (h, (k, (j, t))) =
    rw (digit_no_space c (d ∷ e ∷ (s ++ (b'.' ∷ r))) h) (
      rw (first_two c d (e ∷ (s ++ (b'.' ∷ r))) h) (rw k (rw (no_day e (s ++ (b'.' ∷ r)) (inl j)))))

no_long_date : (y m d : ℕ) → match_long (save_date y m d) ≡ none
unfolding save_date
no_long_date y m d =
    let (c, s, e) = decimal-ne-nil y in
    let digits : Digits (c ∷ s) = rw e at (decimal-Digits y) in
    rw e (no_match_long s (decimal m ++ (b'.' ∷ decimal d)) c digits)

-- The general parser, which tries the long English form first, reads every such date too.
pub parse_ck3_date-save_date :
    (y m d : ℕ)
    → 1 ≤ y
    → 1 ≤ m
    → m ≤ 12
    → 1 ≤ d
    → d ≤ 31
    → parse_ck3_date (save_date y m d) ≡ some (iso_text y m d)
unfolding parse_ck3_date parse_ck3_long_date
parse_ck3_date-save_date y m d hy hm hm' hd hd' =
    rw (no_long_date y m d, parse_ck3_date, parse_ck3_long_date)
      (parse_ck3_short_date-save_date y m d hy hm hm' hd hd')
