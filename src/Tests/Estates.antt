-- ===== src/Tests/Estates.antt =====
-- The theorem of the primary title, on a save with an index and titles of two ranks.
use ck3_llm_chronicler.Base.{
  [], ◌∷◌, some, ◌≡◌, refl, get, put, sort_by, insert_by, nat_order, text_order, pair_order, member,
}
use ck3_llm_chronicler.Snapshot.{SaveSnapshot, TitleSnapshot}
use ck3_llm_chronicler.Holdings.{
  get_titles_held_by, get_held_titles_sorted, get_primary_title_held_by,
}
use ck3_llm_chronicler.Holdings.Grandest.{IsPrimary, get_primary_title_held_by_lem}
use ck3_llm_chronicler.Parse.Index.{add_to}
use ck3_llm_chronicler.Parse.Titles.{add_holders, build_title_holders}
use ck3_llm_chronicler.Tests.Saves.{empty_save, title}

abbrev duchy : TitleSnapshot
duchy = record (title 9 "d_kent" (some 1)) { tier = "duchy" }

abbrev lordly : SaveSnapshot
lordly = record (empty_save "1066.1.1") {
  titles = (7, title 7 "c_kent" (some 1)) ∷ (8, title 8 "c_essex" (some 2)) ∷ (9, duchy) ∷ [];
  title_holders = (1, 9 ∷ 7 ∷ []) ∷ (2, 8 ∷ []) ∷ [];
}

index_parsed : lordly.title_holders ≡ build_title_holders lordly.titles
unfolding build_title_holders add_holders add_to get put
index_parsed = refl

duchy_first : get_primary_title_held_by lordly 1 ≡ some duchy
unfolding get_primary_title_held_by get_held_titles_sorted get_titles_held_by get sort_by insert_by
duchy_first = refl

get_primary_title_held_by_example : IsPrimary lordly 1 (get_primary_title_held_by lordly 1)
unfolding member
get_primary_title_held_by_example =
    get_primary_title_held_by_lem lordly 1 index_parsed (refl, (refl, (refl, tt)))
