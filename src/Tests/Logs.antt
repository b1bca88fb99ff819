-- ===== src/Tests/Logs.antt =====
-- Lines of a game log, as src/chronicler/tailer/parser.py shows them.
use ck3_llm_chronicler.Base.{
  rstrip, Text, codes, true, List, [], ◌∷◌, ◌++◌, none, some, length, replicate, map, flat_map, All,
  ◌≡◌, refl, arith,
}
use ck3_llm_chronicler.Tailer.Scan.{
  chronicler_body, has_engine_prefix, internal_id, save_scope, list_label, list_item, strip_prefix,
  is_word, trimmed_body,
}
use ck3_llm_chronicler.Tailer.Envelope.{Envelope, envelope_kind, split_at}
use ck3_llm_chronicler.Tailer.Watcher.{
  Bytes, TailedLine, line_break, line_text, read_loop, read_new_lines,
}
use ck3_llm_chronicler.Tailer.ExactlyOnce.{init, watch, watch_lem}
use ck3_llm_chronicler.Tailer.Parser.{Validated, valid, violation, ParseResult, finalised}
use ck3_llm_chronicler.Tailer.Feed.{flush}
use ck3_llm_chronicler.Tailer.Steps.{Line, run, stripped_line}
use ck3_llm_chronicler.Tailer.Counts.{log-count, tagged_lines}
use ck3_llm_chronicler.Tailer.Resync.{run-resync}
use ck3_llm_chronicler.Tailer.Reported.{Reports, tagged_line-Reports}
use ck3_llm_chronicler.Tailer.Sources.{Sound, FromDump, run-Sound}

abbrev tag_text : Text
tag_text = codes "[20:54:27][D][effect.cpp:1]: CHRONICLER|v=1|t=death|d=3 May 1066|cause=natural  "

abbrev root_text : Text
root_text =
    codes "[20:54:27][D][effectimpl.cpp:642]: William (Internal ID: 32134 - Historical ID 140)!"

abbrev scope_text : Text
scope_text = codes "surviving_consort: Mathilde (Internal ID: 33007 - x) weak (Character - 33007)!"

abbrev item_text : Text
item_text = codes "Agathe (Internal ID 39543) weak (Character - 39543)!"

abbrev log_lines : List Line
log_lines =
    ("t1", tag_text)
    ∷ ("t2", root_text)
    ∷ ("t3", codes "Saved event targets:")
    ∷ ("t4", scope_text)
    ∷ ("t5", scope_text)
    ∷ ("t6", [])
    ∷ ("t7", codes "Saved list targets:")
    ∷ ("t8", codes "heirs: ")
    ∷ ("t9", item_text)
    ∷ ("u1", codes "[20:54:28][D][x.cpp:1]: next")
    ∷ ("u2", codes "CHRONICLER|nonsense")
    ∷ []

-- The events of the tests are their types.
abbrev accept : Envelope → Validated Text
unfolding envelope_kind
accept e = elim (envelope_kind e) [ none ↦ violation "no type" | some kind ↦ valid kind ]

body_found : chronicler_body tag_text ≡ some (codes "v=1|t=death|d=3 May 1066|cause=natural")
unfolding chronicler_body strip_prefix is_word trimmed_body
body_found = refl

root_found : internal_id root_text ≡ some (32134, codes " - Historical ID 140)!")
unfolding internal_id
root_found = refl

prefix_found : has_engine_prefix root_text ≡ true
unfolding has_engine_prefix
prefix_found = refl

scope_found : save_scope scope_text ≡ some (codes "surviving_consort", 33007)
unfolding save_scope
scope_found = refl

label_found : list_label (codes "heirs: ") ≡ some (codes "heirs")
unfolding list_label
label_found = refl

item_found : list_item item_text ≡ some 39543
unfolding list_item
item_found = refl

log-count_example :
    let after = run accept log_lines none in
    length (after.0 ++ (flush accept after.1).0) ≡ tagged_lines log_lines
log-count_example = log-count accept log_lines

run-Sound_example : All (Sound accept (FromDump log_lines)) (run accept log_lines none).0
run-Sound_example = run-Sound accept log_lines

abbrev tag_body : Text
tag_body = codes "v=1|t=death|d=3 May 1066|cause=natural"

stripped_body : chronicler_body (stripped_line tag_text) ≡ some tag_body
unfolding chronicler_body strip_prefix is_word trimmed_body rstrip
stripped_body = refl

run-resync_example : run accept (log_lines ++ (("v1", tag_text) ∷ log_lines)) none ≡ (
    let before = run accept log_lines none in
    let fresh = run accept (("v1", tag_text) ∷ log_lines) none in
    (before.0 ++ (finalised accept before.1 ++ fresh.0), fresh.1))
run-resync_example = run-resync accept log_lines log_lines "v1" tag_text tag_body none stripped_body

abbrev noise : List Line
noise = replicate 80 ("t2", codes "trace")

tagged_line-Reports_example :
    (rest : List (ParseResult Text)) × ((run accept (("v1", tag_text) ∷ noise) none).0
      ≡ finalised accept none ++ rest)
    × Reports (stripped_line tag_text) "v1" rest
tagged_line-Reports_example =
    tagged_line-Reports accept "v1" tag_text tag_body noise none stripped_body (omega arith)

-- Bytes that are characters.
abbrev ascii : Bytes → Text
ascii bytes = bytes

-- A line in three writes, the second line in two.
abbrev writes : List Bytes
writes = codes "one\r\ntw" ∷ codes "o" ∷ (10 ∷ codes "thr") ∷ []

watched_texts :
    map (λ (x : TailedLine). x.text) (watch ascii [] 0 writes).0 ≡ codes "one" ∷ codes "two" ∷ []
unfolding watch read_new_lines read_loop rstrip
watched_texts = refl

watch_lem_example :
    (map (λ (x : TailedLine). x.text) (watch ascii [] 0 writes).0
      ≡ map
          (λ l. line_text ascii (l ++ (line_break ∷ [])))
          (init (split_at line_break (flat_map (λ k. k) writes))))
    × (watch ascii [] 0 writes ≡ read_loop ascii 0 [] (flat_map (λ k. k) writes))
watch_lem_example = watch_lem ascii writes
