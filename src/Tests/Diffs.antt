-- ===== src/Tests/Diffs.antt =====
-- The theorems of the diff on two saves.
use ck3_llm_chronicler.Base.{
  String, true, false, List, [], ◌∷◌, Option, none, some, ◌≡◌, ◌↔◌, ◌≢◌, refl, arith, All, filter,
  member, nat_order, text_order, pair_order, get, sorted, insert, subst, sym, ◌∙◌, ≡?_refl, ◌≡?◌,
  IsSorted,
}
use mathlib.Core.List.{Permᴰ}
use ck3_llm_chronicler.Diff.Types.{DiffEvent, ok, raise, playthrough_mismatch}
use ck3_llm_chronicler.Diff.Tracked.{diff_snapshots_tracked}
use ck3_llm_chronicler.Diff.Snapshots.{sort_key, all_ids, diff_over, diff_snapshots}
use ck3_llm_chronicler.Diff.Snapshots.Loop.{IsKeyed, items-IsKeyed}
use ck3_llm_chronicler.Diff.Snapshots.Order.{diff_over-perm}
use ck3_llm_chronicler.Diff.Snapshots.Filter.{diff_snapshots-filter, is_about, AllSeen}
use ck3_llm_chronicler.Diff.Snapshots.Idle.{diff_snapshots_self}
use ck3_llm_chronicler.Diff.Snapshots.Total.{diff_snapshots_total, IsIndexed, scan-IsIndexed}
use ck3_llm_chronicler.Diff.Snapshots.Refused.{AreOfTwo, diff_snapshots_refused}
use ck3_llm_chronicler.Tests.Saves.{before, after, other_campaign}

-- What stands for the markup remover here keeps the text.
abbrev plain : Option String → Option String
plain text = text

before-IsIndexed : IsIndexed before
before-IsIndexed = scan-IsIndexed before refl

after-IsIndexed : IsIndexed after
after-IsIndexed = scan-IsIndexed after refl

after-IsKeyed : IsKeyed after
after-IsKeyed = items-IsKeyed after.characters (refl, (refl, tt))

all_seen : AllSeen before after (1 ∷ [])
unfolding get member
all_seen cid h k = ground (arith, k)

-- The diff of the two saves has a result.
run_total :
    (out : List DiffEvent) × (diff_snapshots plain before after none ≡ ok out)
    × IsSorted sort_key out
run_total = diff_snapshots_total plain before after none before-IsIndexed after-IsIndexed refl

abbrev changes : List DiffEvent
changes = run_total.0

changes_returned : diff_over plain before after none (1 ∷ 2 ∷ []) ≡ ok changes
unfolding diff_snapshots all_ids sorted insert
changes_returned = run_total.1

diff_over-perm_example : diff_over plain before after none (2 ∷ 1 ∷ []) ≡ ok changes
diff_over-perm_example =
    diff_over-perm plain before after none (1 ∷ 2 ∷ []) (2 ∷ 1 ∷ []) changes after-IsKeyed
      (∣ Permᴰ.swap refl refl ∣₁) changes_returned

diff_snapshots-filter_example :
    diff_snapshots plain before after (some (1 ∷ [])) ≡ ok (filter (is_about (1 ∷ [])) changes)
diff_snapshots-filter_example =
    diff_snapshots-filter plain before after (1 ∷ []) changes after-IsKeyed all_seen run_total.1

diff_snapshots_total_example :
    (out : List DiffEvent) × (diff_snapshots plain before after (some (1 ∷ [])) ≡ ok out)
    × IsSorted sort_key out
diff_snapshots_total_example =
    diff_snapshots_total plain before after (some (1 ∷ [])) before-IsIndexed after-IsIndexed refl

diff_snapshots_tracked_example :
    All (λ e. member e.event.c (1 ∷ []) ≡ true) diff_snapshots_total_example.0
diff_snapshots_tracked_example =
    diff_snapshots_tracked plain before after (1 ∷ []) after-IsKeyed diff_snapshots_total_example.0
      diff_snapshots_total_example.1

diff_snapshots_self_example : diff_snapshots plain after after none ≡ ok []
diff_snapshots_self_example = diff_snapshots_self plain after none

distinct : (s t : String) → (s ≡? t) ≡ false → s ≢ t
distinct s t h e =
    let same : (s ≡? t) ≡ true = subst (λ r. (s ≡? r) ≡ true) e (≡?_refl s) in
    let bad : false ≡ true = sym h ∙ same in cc

other_campaign-IsIndexed : IsIndexed other_campaign
other_campaign-IsIndexed = scan-IsIndexed other_campaign refl

diff_snapshots_refused_example :
    (diff_snapshots plain before other_campaign none ≡ raise (playthrough_mismatch "p1" "p2")) ↔ (
      (playthrough_mismatch "p1" "p2" ≡ playthrough_mismatch "p1" "p2")
      × AreOfTwo plain before other_campaign none)
diff_snapshots_refused_example =
    diff_snapshots_refused plain before other_campaign none before-IsIndexed
      other_campaign-IsIndexed (playthrough_mismatch "p1" "p2")
