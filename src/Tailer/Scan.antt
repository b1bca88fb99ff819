-- ===== src/Tailer/Scan.antt =====
-- src/chronicler/tailer/parser.py: its regular expressions as scanners. `\w`, `\d` and `\s` are read
-- over ASCII, and a line holds no line break, so that `.` is any character.
use ck3_llm_chronicler.Base.{
  is_space, span, rstrip, ℕ, Text, codes, Bool, true, false, ◌&&◌, ◌||◌, not, [], ◌∷◌, Option, none,
  some, if◌then◌else◌, ◌==◌, leb, is_digit, value, is_empty,
}

abbrev pub is_lower : ℕ → Bool
is_lower c = (leb b'a' c && leb c b'z') || (c == b'_')

-- `\w`
unfoldable pub is_word : ℕ → Bool
unfolding is_digit
is_word c = is_lower c || (leb b'A' c && leb c b'Z') || is_digit c

-- The rest behind a text that `s` begins with.
unfoldable pub strip_prefix : Text → Text → Option Text
strip_prefix [] s = some s
strip_prefix (c ∷ p) [] = none
strip_prefix (c ∷ p) (d ∷ s) = let rest = strip_prefix p s in if c == d then rest else none

infixl 20 ◌>>=◌
abbrev pub ◌>>=◌ : {A B : Type 0} → Option A → (A → Option B) → Option B
none >>= f = none
some a >>= f = f a

-- What a prefix that may be absent leaves.
abbrev pub skip_char : ℕ → Text → Text
skip_char c s = elim (strip_prefix (c ∷ []) s) [ none ↦ s | some rest ↦ rest ]

-- One or more characters that pass.
abbrev pub some_of : (ℕ → Bool) → Text → Option (Text × Text)
some_of p s = if is_empty (span p s).0 then none else some (span p s)

-- `re.search`: the first place where the scanner succeeds.
unfoldable pub search_text : {A : Type 0} → (Text → Option A) → Text → Option A
search_text f [] = f []
search_text f (c ∷ s) =
    let rest = search_text f s in elim (f (c ∷ s)) [ none ↦ rest | some a ↦ some a ]

-- `(.+?)\s*$` at the start: a text of at least one character, without the blanks behind it
unfoldable pub trimmed_body : Text → Option Text
unfolding rstrip
trimmed_body [] = none
trimmed_body (c ∷ s) = some (c ∷ rstrip is_space s)

abbrev pub tag_here : Text → Option Text
tag_here s = do rest ← strip_prefix (codes "CHRONICLER|") s; trimmed_body rest

-- `\WCHRONICLER\|(.+?)\s*$` at the start
abbrev pub tag_after_break : Text → Option Text
tag_after_break [] = none
tag_after_break (c ∷ s) = if is_word c then none else tag_here s

-- `_CHRONICLER_RE.search(s)`, its first group
unfoldable pub chronicler_body : Text → Option Text
unfolding search_text
chronicler_body s = elim (tag_here s) [
  | none ↦ search_text tag_after_break s
  | some body ↦ some body
]

abbrev pub two_digits_then : ℕ → Text → Option Text
two_digits_then stop [] = none
two_digits_then stop (a ∷ []) = none
two_digits_then stop (a ∷ b ∷ s) =
    if is_digit a && is_digit b then strip_prefix (stop ∷ []) s else none

-- `_ENGINE_PREFIX_RE.match(s)`
unfoldable pub has_engine_prefix : Text → Bool
unfolding is_digit strip_prefix span is_word
has_engine_prefix s =
    let found : Option Text = do
      a ← strip_prefix (codes "[") s
      b ← two_digits_then b':' a
      c ← two_digits_then b':' b
      d ← two_digits_then b']' c
      e ← strip_prefix (codes "[") d
      level ← some_of is_word e
      f ← strip_prefix (codes "][") level.1
      file ← some_of (λ k. not (k == b']')) f
      strip_prefix (codes "]:") file.1
    in elim found [ none ↦ false | some rest ↦ true ]

-- `Internal ID:?\s+(\d+)` at the start: the number and the rest
abbrev pub internal_id_here : Text → Option (ℕ × Text)
internal_id_here s = do
  a ← strip_prefix (codes "Internal ID") s
  b ← some_of is_space (skip_char b':' a)
  digits ← some_of is_digit b.1
  some (value 0 digits.0, digits.1)

-- `_INTERNAL_ID_RE.search(s)`
unfoldable pub internal_id : Text → Option (ℕ × Text)
unfolding is_digit strip_prefix span search_text value
internal_id s = search_text internal_id_here s

-- `\(Character\s*-\s*\d+\)` at the start
abbrev pub character_mark_here : Text → Option Text
character_mark_here s = do
  a ← strip_prefix (codes "(Character") s
  b ← strip_prefix (codes "-") (span is_space a).1
  digits ← some_of is_digit (span is_space b).1
  strip_prefix (codes ")") digits.1

abbrev pub followed_by_mark : ℕ × Text → Option ℕ
followed_by_mark (id, rest) = elim (search_text character_mark_here rest) [
  | none ↦ none
  | some after ↦ some id
]

-- `[a-z_]\w*:` at the start: the label and the rest
unfoldable pub label : Text → Option (Text × Text)
unfolding span strip_prefix is_word is_digit
label [] = none
label (c ∷ s) =
    if is_lower c
    then (do
      rest ← strip_prefix (codes ":") (span is_word s).1
      some (c ∷ (span is_word s).0, rest))
    else none

-- `_SAVE_SCOPE_RE.match(s)`: the role and the id
unfoldable pub save_scope : Text → Option (Text × ℕ)
unfolding span strip_prefix is_digit label search_text value internal_id
save_scope s = do
  l ← label s
  blank ← some_of is_space l.1
  found ← internal_id l.1
  id ← followed_by_mark found
  some (l.0, id)

-- `_LIST_LABEL_RE.match(s)`
unfoldable pub list_label : Text → Option Text
unfolding span label
list_label s = do l ← label s; if is_empty (span is_space l.1).1 then some l.0 else none

abbrev pub bracketed_id_here : Text → Option (ℕ × Text)
bracketed_id_here s = do a ← strip_prefix (codes "(") s; internal_id_here a

-- `_LIST_ITEM_RE.match(s)`: the id
unfoldable pub list_item : Text → Option ℕ
unfolding span strip_prefix is_digit search_text value
list_item s = do found ← search_text bracketed_id_here s; followed_by_mark found
