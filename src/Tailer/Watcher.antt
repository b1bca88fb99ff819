-- ===== src/Tailer/Watcher.antt =====
-- src/chronicler/tailer/watcher.py: `TailedFile`. A file is its bytes, or nothing where it does not
-- exist; the decoding of UTF-8 is a parameter. A read is one pass of `read_new_lines` to its end.
use ck3_llm_chronicler.Base.{
  rstrip, ℕ, ◌+◌, Text, Bool, List, [], ◌∷◌, ◌++◌, Option, none, some, if◌then◌else◌, ltb, ◌==◌,
  length, drop,
}
use ck3_llm_chronicler.Tailer.Feed.{is_line_end}

abbrev pub Bytes : Type 0
Bytes = List ℕ

pub record TailedLine : Type 0 where
  pub text : Text
  pub offset : ℕ

abbrev pub line_break : ℕ
line_break = 10

module _ (decode : Bytes → Text) where
  abbrev pub line_text : Bytes → Text
  line_text line = rstrip is_line_end (decode line)

  -- The loop of reads: `offset` stands before `line`, the part of a line that has been read.
  unfoldable pub read_loop : ℕ → Bytes → Bytes → List TailedLine × ℕ
  unfolding rstrip
  read_loop offset line [] = ([], offset)
  read_loop offset line (b ∷ rest) =
      let stop : Bool = b == line_break in
      let next : ℕ = if stop then offset + length (line ++ (b ∷ [])) else offset in
      let r = read_loop next (if stop then [] else line ++ (b ∷ [])) rest in
      (
        (if stop then record { text = line_text (line ++ (b ∷ [])); offset = next } ∷ r.0 else r.0),
        r.1,
      )

  unfoldable pub read_new_lines : ℕ → Option Bytes → List TailedLine × ℕ
  unfolding read_loop
  read_new_lines offset none = ([], offset)
  read_new_lines offset (some bytes) =
      let start : ℕ = if ltb (length bytes) offset then 0 else offset in
      if length bytes == start then ([], start) else read_loop start [] (drop start bytes)
