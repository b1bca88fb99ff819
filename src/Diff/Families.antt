-- ===== src/Diff/Families.antt =====
-- The marriages and divorces that a step from one save to the next brings.
use ck3_llm_chronicler.Base.{
  ℕ, String, Dict, List, filter_map, Bool, true, false, not, ◌&&◌, ◌||◌, ◌++◌, Option, none, some,
  ◌≡◌, refl, sym, arith, inl, inr, nat_order, member, difference, member-sorted, member-difference,
  member-append, IsAscending, sorted-IsAscending, same_option, eq_of_same_option, ◌==◌, ≡?_refl,
  ◌≡?◌, Bool-cases,
}
use ck3_llm_chronicler.Snapshot.{CharacterSnapshot, MemorySnapshot}
use ck3_llm_chronicler.Diff.Character.{new_spouses, promoted_spouse, diff_one_character}
use ck3_llm_chronicler.Diff.Kinds.{spouse_of, spouses-diff_one_character}

-- A spouse of a character, listed or primary; the id 0 is nobody.
abbrev pub is_spouse : ℕ → CharacterSnapshot → Bool
is_spouse sp c =
    member sp c.family.spouses || (not (sp == 0) && same_option (some sp) c.family.primary_spouse)

-- Every listed primary spouse is among the spouses.
abbrev pub IsListed : CharacterSnapshot → Type 0
IsListed c =
    (sp : ℕ)
    → c.family.primary_spouse ≡ some sp
    → (sp == 0) ≡ false
    → member sp c.family.spouses ≡ true

promoted-cases :
    (prev curr : CharacterSnapshot) (sp : ℕ) (o : Option ℕ)
    → curr.family.primary_spouse ≡ o
    → member sp (promoted_spouse prev curr) ≡ (
        not (sp == 0)
        && (same_option (some sp) o
            && (not (same_option (some sp) prev.family.primary_spouse)
                && not (member sp prev.family.spouses))))
unfolding promoted_spouse member
promoted-cases prev curr sp none e = rw (e, promoted_spouse) (ground arith)
promoted-cases prev curr sp (some k) e = elim (Bool-cases (k == sp)) [
  | inl same ↦
      let eq : k ≡ sp = ground arith in
      let r : (sp ≡? sp) ≡ true = ≡?_refl sp in rw (e, promoted_spouse) (rw eq (ground arith))
  | inr other ↦ rw (e, promoted_spouse) (ground arith)
]

new_spouses_lem :
    (prev curr : CharacterSnapshot)
    → IsListed prev
    → IsAscending (new_spouses prev curr)
      × ((sp : ℕ)
          → member sp (new_spouses prev curr) ≡ (is_spouse sp curr && not (is_spouse sp prev)))
unfolding new_spouses
new_spouses_lem prev curr h =
    let found = difference curr.family.spouses prev.family.spouses ++ promoted_spouse prev curr in
    (
      sorted-IsAscending found,
      λ sp.
          rw
            (
              member-sorted sp found,
              member-append sp (difference curr.family.spouses prev.family.spouses)
                  (promoted_spouse prev curr),
              member-difference sp curr.family.spouses prev.family.spouses,
              promoted-cases prev curr sp curr.family.primary_spouse refl,
            )
            (let listed : same_option (some sp) prev.family.primary_spouse ≡ true
                  → (sp == 0) ≡ false
                  → member sp prev.family.spouses ≡ true =
                λ e n. h sp (sym (eq_of_same_option (some sp) prev.family.primary_spouse e)) n in
              ground (arith, listed)),
    )

-- From one save to the next, where the primary spouse of the first save, if there is one other than
-- the id 0, is among its listed spouses: the spouses of the marriage events that `diff_one_character`
-- reports, in the order of the events, are those that are a spouse, listed or primary, in the second
-- save and were none in the first, each once and in ascending order. A spouse who only becomes the
-- primary one is not reported.
pub marriages_lem :
    (prev curr : CharacterSnapshot) (date : String) (characters : Dict ℕ CharacterSnapshot)
    (memories : List MemorySnapshot)
    → IsListed prev
    → let married = filter_map spouse_of (diff_one_character prev curr date characters memories) in
      IsAscending married
      × ((sp : ℕ) → member sp married ≡ (is_spouse sp curr && not (is_spouse sp prev)))
marriages_lem prev curr date characters memories h =
    rw (spouses-diff_one_character prev curr date characters memories) (new_spouses_lem prev curr h)
