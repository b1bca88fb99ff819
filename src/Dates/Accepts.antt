-- ===== src/Dates/Accepts.antt =====
-- src/chronicler/util/dates.py: which texts `parse_ck3_short_date` accepts, by the regular expression.
use ck3_llm_chronicler.Base.{
  ℕ, zero, suc, ◌≤◌, Bool, true, [], ◌∷◌, ◌++◌, none, some, ◌≡◌, refl, sym, ap, ◌∙◌, arith,
  append-nil, subst, inl, inr, ◌==◌, Text, All, length, is_digit, value, Bool-cases,
}
use ck3_llm_chronicler.Dates.{
  is_space, skip_spaces, span, some_run, all_digits, one_or_two_digits, run_length, expect, at_end,
  iso_text, match_short, check_short, parse_ck3_short_date,
}
use ck3_llm_chronicler.Dates.Calendar.{>>=-eq-some, check_short_sound}

abbrev pub Spaces : Text → Type 0
Spaces = All (λ c. is_space c ≡ true)

-- At least one and at most `n` digits.
abbrev pub IsNumeral : ℕ → Text → Type 0
IsNumeral n s = All (λ c. is_digit c ≡ true) s × (1 ≤ length s) × (length s ≤ n)

-- What `^\s*(\d+)\.(\d{1,2})\.(\d{1,2})\s*$` matches, and the three groups.
pub record IsShort (text year month day : Text) : Type 0 where
  pub before : Text
  pub after : Text
  pub spelled : text ≡ before ++ (year ++ (b'.' ∷ (month ++ (b'.' ∷ (day ++ after)))))
  pub before_spaces : Spaces before
  pub after_spaces : Spaces after
  pub year_digits : IsNumeral (length year) year
  pub month_digits : IsNumeral 2 month
  pub day_digits : IsNumeral 2 day

skip_spaces-split : (s : Text) → (sp : Text) × (s ≡ sp ++ skip_spaces s) × Spaces sp
unfolding skip_spaces
skip_spaces-split [] = ([], refl, tt)
skip_spaces-split (c ∷ s) = elim (Bool-cases (is_space c)) [
  | inr e ↦ ([], rw e refl, tt)
  | inl e ↦
      let (sp, split, h) = skip_spaces-split s in
      (c ∷ sp, rw e (ap (λ (t : Text). c ∷ t) split), (e, h))
]

span-split :
    (n : ℕ) (p : ℕ → Bool) (s : Text)
    → (s ≡ (span n p s).0 ++ (span n p s).1)
      × All (λ c. p c ≡ true) (span n p s).0
      × (length (span n p s).0 ≤ n)
unfolding span
span-split zero p s = (refl, tt, omega arith)
span-split (suc n) p [] = (refl, tt, omega arith)
span-split (suc n) p (c ∷ s) = elim (Bool-cases (p c)) [
  | inr e ↦ rw e (refl, tt, omega arith)
  | inl e ↦
      let (split, h, le) = span-split n p s in
      rw e (ap (λ (t : Text). c ∷ t) split, (e, h), omega (arith, le))
]

-- A run that is found is not empty.
found-ne-nil :
    (found : Text × Text) (a b : Text)
    → elim found.0 [ [] ↦ none | c ∷ r ↦ some found ] ≡ some (a, b)
    → (found ≡ (a, b)) × (1 ≤ length a)
found-ne-nil ([], rest) a b h = absurd cc
found-ne-nil (c ∷ r, rest) a b h =
    let same : (c ∷ r, rest) ≡ (a, b) = cc in
    (same, rw (← ap (λ (q : Text × Text). q.0) same) (omega arith))

some_run-split :
    (n : ℕ) (p : ℕ → Bool) (s a b : Text)
    → some_run n p s ≡ some (a, b)
    → (s ≡ a ++ b) × All (λ c. p c ≡ true) a × (1 ≤ length a) × (length a ≤ n)
unfolding some_run
some_run-split n p s a b h =
    let (same, positive) = found-ne-nil (span n p s) a b h in
    let (split, all, le) = rw same at (span-split n p s) in (split, all, positive, le)

dot-split : (s r : Text) → expect (b'.' ∷ []) s ≡ some r → s ≡ b'.' ∷ r
unfolding expect
dot-split [] r h = absurd cc
dot-split (c ∷ s) r h = elim (Bool-cases (b'.' == c)) [
  | inr e ↦ absurd (ground (arith, h, e))
  | inl e ↦
      let same : s ≡ r = ground (arith, h, e) in
      let dot : c ≡ b'.' = ground (arith, e) in rw (dot, same) refl
]

ended : (r : Text) {u : Unit {0}} → elim r [ [] ↦ some tt | c ∷ s ↦ none ] ≡ some u → r ≡ []
ended [] h = refl
ended (c ∷ s) h = absurd cc

at_end-Spaces : (s : Text) {u : Unit {0}} → at_end s ≡ some u → Spaces s
unfolding at_end
at_end-Spaces s h =
    let (sp, split, spaces) = skip_spaces-split s in
    let nothing : skip_spaces s ≡ [] = ended (skip_spaces s) h in
    let whole : s ≡ sp = split ∙ (ap (λ (t : Text). sp ++ t) nothing ∙ append-nil sp) in
    subst Spaces (sym whole) spaces

-- What is left after each part of the expression, put together again.
module _ (text s₀ s₁ s₂ s₃ s₄ s₅ year month day before : Text) where
  put_together :
      text ≡ before ++ s₀
      → s₀ ≡ year ++ s₁
      → s₁ ≡ b'.' ∷ s₂
      → s₂ ≡ month ++ s₃
      → s₃ ≡ b'.' ∷ s₄
      → s₄ ≡ day ++ s₅
      → text ≡ before ++ (year ++ (b'.' ∷ (month ++ (b'.' ∷ (day ++ s₅)))))
  put_together e e₀ e₁ e₂ e₃ e₄ =
      e
      ∙ ap (λ (t : Text). before ++ t)
          (e₀
            ∙ ap (λ (t : Text). year ++ t)
                (e₁
                  ∙ ap (λ (t : Text). b'.' ∷ t)
                      (e₂ ∙ ap (λ (t : Text). month ++ t) (e₃ ∙ ap (λ (t : Text). b'.' ∷ t) e₄))))

match_short-IsShort :
    (text : Text) (y m d : ℕ)
    → match_short text ≡ some (y, m, d)
    → (year : Text) × (month : Text) × (day : Text) × IsShort text year month day
      × (y ≡ value 0 year)
      × (m ≡ value 0 month)
      × (d ≡ value 0 day)
unfolding match_short all_digits one_or_two_digits
match_short-IsShort text y m d h =
    let (before, split, spaces) = skip_spaces-split text in
    let s₀ = skip_spaces text in
    let ((year, s₁), f₀, h₁) = >>=-eq-some (all_digits s₀) _ h in
    let (s₂, f₁, h₂) = >>=-eq-some (expect (b'.' ∷ []) s₁) _ h₁ in
    let ((month, s₃), f₂, h₃) = >>=-eq-some (one_or_two_digits s₂) _ h₂ in
    let (s₄, f₃, h₄) = >>=-eq-some (expect (b'.' ∷ []) s₃) _ h₃ in
    let ((day, s₅), f₄, h₅) = >>=-eq-some (one_or_two_digits s₄) _ h₄ in
    let (u, f₅, h₆) = >>=-eq-some (at_end s₅) _ h₅ in
    let (e₀, a₀, p₀, l₀) = some_run-split (run_length s₀) is_digit s₀ year s₁ f₀ in
    let (e₂, a₂, p₂, l₂) = some_run-split 2 is_digit s₂ month s₃ f₂ in
    let (e₄, a₄, p₄, l₄) = some_run-split 2 is_digit s₄ day s₅ f₄ in
    (
      year,
      month,
      day,
      record {
        before = before;
        after = s₅;
        spelled =
            put_together text s₀ s₁ s₂ s₃ s₄ s₅ year month day before split e₀ (dot-split s₁ s₂ f₁)
              e₂ (dot-split s₃ s₄ f₃) e₄;
        before_spaces = spaces;
        after_spaces = at_end-Spaces s₅ f₅;
        year_digits = (a₀, p₀, omega arith);
        month_digits = (a₂, p₂, l₂);
        day_digits = (a₄, p₄, l₄);
      },
      cc,
      cc,
      cc,
    )

-- A text that parses as a short date is spaces, a number, a dot, a number of one or two digits, a dot,
-- a number of one or two digits and spaces, with nothing else; the first number is at least 1, the
-- second from 1 to 12 and the third from 1 to 31, and the result is the ISO text of the three.
pub parse_ck3_short_date-accepts :
    (text : Text) {iso : Text}
    → parse_ck3_short_date text ≡ some iso
    → (year : Text) × (month : Text) × (day : Text) × IsShort text year month day
      × (1 ≤ value 0 year)
      × (1 ≤ value 0 month)
      × (value 0 month ≤ 12)
      × (1 ≤ value 0 day)
      × (value 0 day ≤ 31)
      × (iso ≡ iso_text (value 0 year) (value 0 month) (value 0 day))
unfolding parse_ck3_short_date
parse_ck3_short_date-accepts text h =
    let ((y, m, d), matched, checked) = >>=-eq-some (match_short text) check_short h in
    let (hy, hm, hm', hd, hd', e) = check_short_sound y m d checked in
    let (year, month, day, short, ey, em, ed) = match_short-IsShort text y m d matched in
    (
      year,
      month,
      day,
      short,
      rw (← ey) hy,
      rw (← em) hm,
      rw (← em) hm',
      rw (← ed) hd,
      rw (← ed) hd',
      rw (← ey, ← em, ← ed) e,
    )
