-- ===== src/Holdings.antt =====
-- src/chronicler/save/titles.py: which titles a character holds in a snapshot, grandest first.
pub mod Primary
pub mod Members
pub mod Grandest
use ck3_llm_chronicler.Base.{
  ℕ, ◌-◌, String, Bool, true, false, List, [], ◌∷◌, map, Option, none, some, if◌then◌else◌,
  is_empty, filter, filter_map, same_option, nat_order, text_order, pair_order, Dict, get, get_or,
  sort_by,
}
use ck3_llm_chronicler.Snapshot.{SaveSnapshot, TitleSnapshot}

-- By the reverse index, without ids that the titles lack, or by a scan where the index is empty.
unfoldable pub get_titles_held_by : SaveSnapshot → ℕ → List TitleSnapshot
get_titles_held_by snap character_id =
    if is_empty snap.title_holders
    then filter (λ t. same_option t.holder_id (some character_id)) (map (λ e. e.1) snap.titles)
    else filter_map (λ tid. get tid snap.titles) (get_or character_id [] snap.title_holders)

-- One more than the rank in the code, whose least rank is -1.
abbrev pub primary_tier_rank : Dict String ℕ
primary_tier_rank =
    ("barony", 1)
    ∷ ("county", 2)
    ∷ ("duchy", 3)
    ∷ ("kingdom", 4)
    ∷ ("empire", 5)
    ∷ ("other", 0)
    ∷ []

-- The rank negated as the code negates it, and moved up so that it is a natural number; then the id.
abbrev pub grandeur : TitleSnapshot → ℕ × ℕ
grandeur t = (5 - get_or t.tier 0 primary_tier_rank, t.title_id)

unfoldable pub get_held_titles_sorted : SaveSnapshot → ℕ → List TitleSnapshot
get_held_titles_sorted snap character_id = sort_by grandeur (get_titles_held_by snap character_id)

abbrev pub first_of : List TitleSnapshot → Option TitleSnapshot
first_of [] = none
first_of (t ∷ ts) = some t

unfoldable pub get_primary_title_held_by : SaveSnapshot → ℕ → Option TitleSnapshot
get_primary_title_held_by snap character_id = first_of (get_held_titles_sorted snap character_id)
