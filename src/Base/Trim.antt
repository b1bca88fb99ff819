-- ===== src/Base/Trim.antt =====
-- `str.strip` and `str.rstrip`, and the longest prefix of characters that pass a test. A blank is one of
-- ASCII.
use ck3_llm_chronicler.Base.Lists.{is_empty}
use ck3_llm_chronicler.Base.Strings.{Text}
use ck3_llm_chronicler.Base.Tests.{leb, ◌==◌, if◌then◌else◌}
use Prim.Native.Nat.{ℕ}
use mathlib.Core.Bool.{Bool, ◌&&◌, ◌||◌}
use mathlib.Core.List.{[], ◌∷◌}

abbrev pub is_space : ℕ → Bool
is_space c = (c == b' ') || (leb 9 c && leb c 13) || (leb 28 c && leb c 31)

-- The longest prefix of which every character passes, and the rest.
unfoldable pub span : (ℕ → Bool) → Text → Text × Text
span p [] = ([], [])
span p (c ∷ s) = let rest = span p s in if p c then (c ∷ rest.0, rest.1) else ([], c ∷ s)

-- `s.rstrip()` with the characters that pass in place of blanks
unfoldable pub rstrip : (ℕ → Bool) → Text → Text
rstrip p [] = []
rstrip p (c ∷ s) = let rest = rstrip p s in if p c && is_empty rest then [] else c ∷ rest

-- `s.strip()`
unfoldable pub strip : Text → Text
unfolding span rstrip
strip s = rstrip is_space (span is_space s).1
