-- ===== src/Tests/Lives.antt =====
-- The theorems of the parts of the diff, on the characters of two saves.
use ck3_llm_chronicler.Base.{
  ℕ, String, true, ◌+◌, ◌∙◌, if◌then◌else◌, difference, sorted, insert, List, [], ◌∷◌, some, ◌≡◌,
  refl, arith, filter_map, member, nat_order, get_or, length, codes, decimal, decimal_from, not,
  ◌&&◌, IsAscending,
}
use ck3_llm_chronicler.Snapshot.{CharacterSnapshot}
use ck3_llm_chronicler.Dates.RoundTrip.{save_date}
use ck3_llm_chronicler.Diff.Types.{DiffEvent, ok, is_some}
use ck3_llm_chronicler.Diff.Make.{compute_death_age}
use ck3_llm_chronicler.Diff.Age.{compute_death_age-calendar_age}
use ck3_llm_chronicler.Diff.Character.{new_spouses, promoted_spouse, diff_one_character}
use ck3_llm_chronicler.Diff.Kinds.{death_of, spouse_of, spouses-diff_one_character}
use ck3_llm_chronicler.Diff.Families.{is_spouse, IsListed, marriages_lem}
use ck3_llm_chronicler.Diff.Deaths.{
  Later, events_over, known_dead, final, some_undated, deaths_once,
}
use ck3_llm_chronicler.Diff.SetDiff.{make_set_differ, alliances_spec}
use ck3_llm_chronicler.Diff.Elements.{replay, alliance_change, alliances_replayed}
use ck3_llm_chronicler.Diff.Titles.{diff_titles, held_titles}
use ck3_llm_chronicler.Diff.TitleChanges.{title_change, diff_titles_replayed}
use ck3_llm_chronicler.Diff.Snapshots.Total.{diff_titles-Succeeds, scan-IsIndexed}
use ck3_llm_chronicler.Tests.Saves.{
  no_family, ruler, ruler_later, rival, rival_later, before, after,
}

-- A ruler who dies as the game exits: the date comes first, and the list of the dead later.
abbrev dying : CharacterSnapshot
dying = record rival { death_date = some "1066.12.1" }

abbrev seen_in : String → CharacterSnapshot → Later
seen_in date c = record { date = date; character = c; characters = [] }

abbrev exit_saves : List Later
exit_saves =
    seen_in "1066.6.1" rival ∷ seen_in "1067.1.1" dying ∷ seen_in "1068.1.1" rival_later ∷ []

deaths_once_example :
    length (filter_map death_of (events_over rival exit_saves))
    ≡ (if not (known_dead rival) && known_dead (final rival exit_saves) then 1 else 0)
      + (if some_undated rival exit_saves && is_some (final rival exit_saves).death_date
          then 1
          else 0)
deaths_once_example =
    deaths_once rival exit_saves
      ((λ e. cc), (λ e. cc), ((λ e. cc), (λ e. cc), ((λ e. refl), (λ e. refl), tt)))

-- Married to 2 and 4, then 4 becomes the primary spouse in the place of 2, and 3 is married.
abbrev wed : CharacterSnapshot
wed = record ruler { family = record no_family { primary_spouse = some 2; spouses = 2 ∷ 4 ∷ [] } }

abbrev wed_again : CharacterSnapshot
wed_again = record ruler {
  family = record no_family { primary_spouse = some 4; spouses = 2 ∷ 3 ∷ 4 ∷ [] };
}

primary-IsListed : IsListed wed
unfolding member
primary-IsListed sp e n = ground (arith, e)

third_new : new_spouses wed wed_again ≡ 3 ∷ []
unfolding new_spouses promoted_spouse member difference sorted insert
third_new = refl

only_third : filter_map spouse_of (diff_one_character wed wed_again "1067.1.1" [] []) ≡ 3 ∷ []
only_third = spouses-diff_one_character wed wed_again "1067.1.1" [] [] ∙ third_new

marriages_example :
    let married = filter_map spouse_of (diff_one_character wed wed_again "1067.1.1" [] []) in
    IsAscending married
    × ((sp : ℕ) → member sp married ≡ (is_spouse sp wed_again && not (is_spouse sp wed)))
marriages_example = marriages_lem wed wed_again "1067.1.1" [] [] primary-IsListed

alliances_replayed_example :
    member 3 (
      replay
        (filter_map alliance_change
          (make_set_differ alliances_spec 1 ruler_later before after "1067.1.1"))
        (get_or 1 [] before.alliances))
    ≡ member 3 (get_or 1 [] after.alliances)
alliances_replayed_example = alliances_replayed 1 before after "1067.1.1" ruler_later 3 refl

titles_total : (es : List DiffEvent) × (diff_titles 1 before after "1067.1.1" ≡ ok es)
titles_total =
    diff_titles-Succeeds 1 before after "1067.1.1" (scan-IsIndexed before refl)
      (scan-IsIndexed after refl)

diff_titles_replayed_example :
    member 8 (replay (filter_map title_change titles_total.0) (held_titles 1 before))
    ≡ member 8 (held_titles 1 after)
diff_titles_replayed_example =
    diff_titles_replayed 1 before after "1067.1.1" titles_total.0 8 refl titles_total.1

birth_codes : codes "1040.5.6" ≡ save_date 1040 5 6
unfolding save_date decimal decimal_from
birth_codes = refl

death_codes : codes "1066.5.5" ≡ save_date 1066 5 5
unfolding save_date decimal decimal_from
death_codes = refl

compute_death_age_example : compute_death_age (some "1040.5.6") (some "1066.5.5") ≡ some 25
compute_death_age_example =
    compute_death_age-calendar_age "1040.5.6" "1066.5.5" 1040 5 6 1066 5 5 birth_codes death_codes
      (record {
        year = omega arith;
        year_lt = omega arith;
        month = omega arith;
        month_le = omega arith;
        day = omega arith;
        day_le = omega arith;
      })
      (record {
        year = omega arith;
        year_lt = omega arith;
        month = omega arith;
        month_le = omega arith;
        day = omega arith;
        day_le = omega arith;
      })

-- A death that is listed in one save and dated in a later one is reported twice.
abbrev undated : CharacterSnapshot
undated = record rival { is_dead = true }

abbrev undated_saves : List Later
undated_saves = seen_in "1067.1.1" undated ∷ seen_in "1068.1.1" rival_later ∷ []

undated_twice : length (filter_map death_of (events_over rival undated_saves)) ≡ 2
undated_twice =
    deaths_once rival undated_saves ((λ e. cc), (λ e. cc), ((λ e. refl), (λ e. refl), tt))
