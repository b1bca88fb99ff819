-- ===== src/Diff/Titles.antt =====
-- save/diff.py: `_diff_titles`.
use ck3_llm_chronicler.Base.{
  ℕ, String, List, [], ◌∷◌, ◌++◌, Option, none, some, if◌then◌else◌, nat_order, Dict, get, get_or,
  keys, difference, sorted, same_option, filter, is_empty,
}
use ck3_llm_chronicler.Snapshot.{SaveSnapshot, TitleSnapshot}
use ck3_llm_chronicler.Events.{title_acquired, title_relinquished, title_created}
use ck3_llm_chronicler.Diff.Types.{
  DiffEvent, Result, ok, ◌>>=◌, or_key_error, diff_event, option_bind, participant,
}

-- `frozenset(tid for tid, t in titles.items() if t.holder_id == character_id)`
unfoldable pub titles_scan : ℕ → Dict ℕ TitleSnapshot → List ℕ
titles_scan character_id titles =
    keys (filter (λ e. same_option e.1.holder_id (some character_id)) titles)

-- The titles of a character: by the reverse index, or by a scan where the index is empty.
unfoldable pub held_titles : ℕ → SaveSnapshot → List ℕ
held_titles character_id s =
    if is_empty s.title_holders
    then titles_scan character_id s.titles
    else get_or character_id [] s.title_holders

-- A title that is newly held: created if `prev` did not have it, and acquired otherwise.
unfoldable pub title_gained : ℕ → String → ℕ → TitleSnapshot → Option TitleSnapshot → DiffEvent
title_gained character_id date tid title none =
    diff_event date character_id
      (title_created (record {
        title_id = tid;
        title_key = title.key;
        title_name = title.name;
        tier = some title.tier;
      }))
      []
title_gained character_id date tid title (some prev_title) =
    diff_event date character_id
      (title_acquired (record {
        title_id = tid;
        title_key = title.key;
        title_name = title.name;
        tier = some title.tier;
        from_holder_id = prev_title.holder_id;
      }))
      (participant "former_holder" prev_title.holder_id)

unfoldable pub title_dropped : ℕ → String → ℕ → TitleSnapshot → Option TitleSnapshot → DiffEvent
title_dropped character_id date tid prev_title curr_title =
    let to_holder = option_bind curr_title (λ t. t.holder_id) in
    diff_event date character_id
      (title_relinquished (record {
        title_id = tid;
        title_key = prev_title.key;
        title_name = prev_title.name;
        tier = some prev_title.tier;
        to_holder_id = to_holder;
      }))
      (participant "new_holder" to_holder)

module _ (character_id : ℕ) (prev curr : SaveSnapshot) (date : String) where
  -- `curr_titles[tid]` raises `KeyError` on an id that the titles lack.
  unfoldable pub gained_events : List ℕ → Result (List DiffEvent)
  gained_events [] = ok []
  gained_events (tid ∷ rest) = do
    title ← or_key_error tid (get tid curr.titles)
    events ← gained_events rest
    ok (title_gained character_id date tid title (get tid prev.titles) ∷ events)

  unfoldable pub dropped_events : List ℕ → Result (List DiffEvent)
  dropped_events [] = ok []
  dropped_events (tid ∷ rest) = do
    prev_title ← or_key_error tid (get tid prev.titles)
    events ← dropped_events rest
    ok (title_dropped character_id date tid prev_title (get tid curr.titles) ∷ events)

  unfoldable pub diff_titles : Result (List DiffEvent)
  diff_titles =
      let prev_held = held_titles character_id prev in
      let curr_held = held_titles character_id curr in
      if is_empty prev.titles then ok [] else do
        gained ← gained_events (sorted (difference curr_held prev_held))
        dropped ← dropped_events (sorted (difference prev_held curr_held))
        ok (gained ++ dropped)
