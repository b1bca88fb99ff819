-- ===== src/Diff/Deaths.antt =====
-- The death events of `_diff_one_character` over the records that consecutive saves hold of one
-- character, each compared with the one before. The event of a character who is dead when first
-- observed is made by `diff_snapshots` itself, and is not among these.
use ck3_llm_chronicler.Base.{
  String, Bool, true, false, not, ◌&&◌, ◌||◌, ◌+◌, List, [], ◌∷◌, ◌++◌, Option, none, some, ◌≡◌,
  refl, arith, length, length-append, filter_map, Dict, ap, ◌∙◌, ℕ, if◌then◌else◌,
}
use ck3_llm_chronicler.Snapshot.{CharacterSnapshot, MemorySnapshot}
use ck3_llm_chronicler.Events.{DeathPayload}
use ck3_llm_chronicler.Diff.Types.{DiffEvent, is_some, is_none}
use ck3_llm_chronicler.Diff.Make.{make_death}
use ck3_llm_chronicler.Diff.Character.{died, diff_death, diff_one_character, new_memories}
use ck3_llm_chronicler.Diff.Kinds.{death_of, deaths-diff_one_character}
use ck3_llm_chronicler.Diff.Elements.{filter_map-append}

-- What a save gives to the comparison: its date, the record and all of its records.
pub record Later : Type 0 where
  pub date : String
  pub character : CharacterSnapshot
  pub characters : Dict ℕ CharacterSnapshot

-- The events of the saves in order.
unfoldable pub events_over : CharacterSnapshot → List Later → List DiffEvent
events_over prev [] = []
events_over prev (l ∷ later) =
    diff_one_character prev l.character l.date l.characters (new_memories prev l.character)
    ++ events_over l.character later

abbrev pub final : CharacterSnapshot → List Later → CharacterSnapshot
final c [] = c
final c (l ∷ later) = final l.character later

-- Listed as dead, or with a date of death.
abbrev pub known_dead : CharacterSnapshot → Bool
known_dead c = c.is_dead || is_some c.death_date

-- A record lists the character as dead and has no date of death.
abbrev pub some_undated : CharacterSnapshot → List Later → Bool
some_undated c [] = c.is_dead && not (is_some c.death_date)
some_undated c (l ∷ later) =
    let rest = some_undated l.character later in (c.is_dead && not (is_some c.death_date)) || rest

-- Who is listed as dead stays so, and a date of death does not go away.
abbrev pub IsLasting : CharacterSnapshot → List Later → Type 0
IsLasting c [] = Unit
IsLasting c (l ∷ later) =
    (c.is_dead ≡ true → l.character.is_dead ≡ true)
    × (is_some c.death_date ≡ true → is_some l.character.death_date ≡ true)
    × IsLasting l.character later

final-dead :
    (c : CharacterSnapshot) (later : List Later)
    → IsLasting c later
    → c.is_dead ≡ true
    → (final c later).is_dead ≡ true
final-dead c [] h e = e
final-dead c (l ∷ later) (h, k, t) e = final-dead l.character later t (h e)

final-dated :
    (c : CharacterSnapshot) (later : List Later)
    → IsLasting c later
    → is_some c.death_date ≡ true
    → is_some (final c later).death_date ≡ true
final-dated c [] h e = e
final-dated c (l ∷ later) (h, k, t) e = final-dated l.character later t (k e)

dated-some_undated :
    (c : CharacterSnapshot) (later : List Later)
    → IsLasting c later
    → is_some c.death_date ≡ true
    → some_undated c later ≡ false
dated-some_undated c [] h e = ground (arith, e)
dated-some_undated c (l ∷ later) (h, k, t) e =
    ground (arith, e, dated-some_undated l.character later t (k e))

undated-some_undated :
    (c : CharacterSnapshot) (later : List Later)
    → c.is_dead ≡ true
    → is_some c.death_date ≡ false
    → some_undated c later ≡ true
undated-some_undated c [] h e = ground (arith, e, h)
undated-some_undated c (l ∷ later) h e = ground (arith, e, h)

is_none-not : {A : Type 0} (o : Option A) → is_none o ≡ not (is_some o)
is_none-not none = refl
is_none-not (some a) = refl

length-diff_death :
    (p c : CharacterSnapshot) (date : String)
    → length (filter_map death_of (diff_death p c date)) ≡ (
        if not (is_some p.death_date) && ((not p.is_dead && c.is_dead) || is_some c.death_date)
        then 1
        else 0)
unfolding diff_death died make_death
length-diff_death p c date = ground (arith, is_none-not p.death_date)

-- The deaths that one comparison reports.
length-deaths :
    (p : CharacterSnapshot) (l : Later) (memories : List MemorySnapshot)
    → length (filter_map death_of (diff_one_character p l.character l.date l.characters memories))
      ≡ (if not (is_some p.death_date)
            && ((not p.is_dead && l.character.is_dead) || is_some l.character.death_date)
          then 1
          else 0)
length-deaths p l memories =
    ap (λ (xs : List DeathPayload). length xs)
      (deaths-diff_one_character p l.character l.date l.characters memories)
    ∙ length-diff_death p l.character l.date

-- Over the records that consecutive saves hold of one character, in which who is listed as dead stays
-- so and a date of death does not go away, the events of `diff_one_character`, each record compared
-- with the one before, have one death event if the first record does not know of the death and the
-- last one does, one more if some record lists the character as dead without a date and the last one
-- has the date, and no other.
pub deaths_once :
    (c : CharacterSnapshot) (later : List Later)
    → IsLasting c later
    → length (filter_map death_of (events_over c later))
      ≡ (if not (known_dead c) && known_dead (final c later) then 1 else 0)
        + (if some_undated c later && is_some (final c later).death_date then 1 else 0)
unfolding events_over
deaths_once c [] h = ground arith
deaths_once c (l ∷ later) (h, k, t) =
    let memories = new_memories c l.character in
    let now = diff_one_character c l.character l.date l.characters memories in
    rw
      (
        filter_map-append death_of now (events_over l.character later),
        length-append (filter_map death_of now)
            (filter_map death_of (events_over l.character later)),
        length-deaths c l memories,
        deaths_once l.character later t,
      )
      (ground (
        arith,
        h,
        k,
        final-dead l.character later t,
        final-dated l.character later t,
        dated-some_undated l.character later t,
        undated-some_undated l.character later,
      ))
