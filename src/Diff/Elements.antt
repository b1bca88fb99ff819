-- ===== src/Diff/Elements.antt =====
-- The events of a step say what became of a set: replayed on the set of the first save, they give the
-- set of the second.
use ck3_llm_chronicler.Base.{
  ℕ, String, false, not, ◌&&◌, ◌||◌, List, [], ◌∷◌, ◌++◌, map, Option, none, some, ◌≡◌, refl, arith,
  inl, inr, nat_order, member, sorted, difference, member-sorted, member-difference, filter,
  filter_map, same_set, SameMembers-same_set, get_or, ◌==◌, Bool-cases, member-filter,
}
use ck3_llm_chronicler.Snapshot.{CharacterSnapshot, SaveSnapshot}
use ck3_llm_chronicler.Events.{alliance_formed, alliance_broken}
use ck3_llm_chronicler.Diff.Types.{DiffEvent}
use ck3_llm_chronicler.Diff.SetDiff.{
  make_set_differ, run_builder, alliances_spec, alliance_added, alliance_removed,
}

pub data Change : Type 0 where
  gains : ℕ → Change
  loses : ℕ → Change

abbrev pub apply : Change → List ℕ → List ℕ
apply (gains a) xs = a ∷ xs
apply (loses a) xs = filter (λ x. not (x == a)) xs

-- The changes in their order.
abbrev pub replay : List Change → List ℕ → List ℕ
replay [] xs = xs
replay (c ∷ cs) xs = replay cs (apply c xs)

replay-append :
    (cs ds : List Change) (xs : List ℕ) → replay (cs ++ ds) xs ≡ replay ds (replay cs xs)
replay-append [] ds xs = refl
replay-append (c ∷ cs) ds xs = replay-append cs ds (apply c xs)

member-gains :
    (x : ℕ) (ds xs : List ℕ) → member x (replay (map gains ds) xs) ≡ (member x ds || member x xs)
unfolding member
member-gains x [] xs = refl
member-gains x (a ∷ ds) xs = rw (member-gains x ds (a ∷ xs)) (ground arith)

member-loses :
    (x : ℕ) (ds xs : List ℕ)
    → member x (replay (map loses ds) xs) ≡ (member x xs && not (member x ds))
unfolding member
member-loses x [] xs = ground arith
member-loses x (a ∷ ds) xs =
    rw (member-loses x ds (filter (λ y. not (y == a)) xs), member-filter x (λ y. not (y == a)) xs)
      (ground arith)

-- What is gained, then what is lost, turns one set into the other.
pub replay-difference :
    (x : ℕ) (ps cs : List ℕ)
    → member x
        (replay (map gains (sorted (difference cs ps)) ++ map loses (sorted (difference ps cs))) ps)
      ≡ member x cs
replay-difference x ps cs =
    rw
      (
        replay-append (map gains (sorted (difference cs ps)))
            (map loses (sorted (difference ps cs))) ps,
        member-loses x (sorted (difference ps cs))
            (replay (map gains (sorted (difference cs ps))) ps),
        member-gains x (sorted (difference cs ps)) ps,
        member-sorted x (difference cs ps),
        member-sorted x (difference ps cs),
        member-difference x cs ps,
        member-difference x ps cs,
      )
      (ground arith)

pub filter_map-append :
    {A B : Type 0} (f : A → Option B) (xs ys : List A)
    → filter_map f (xs ++ ys) ≡ filter_map f xs ++ filter_map f ys
filter_map-append f [] ys = refl
filter_map-append f (x ∷ xs) ys = ground (arith, filter_map-append f xs ys)

abbrev pub alliance_change : DiffEvent → Option Change
alliance_change e = elim e.event.p [
  | alliance_formed r ↦ some (gains r.ally_character_id)
  | alliance_broken r ↦ some (loses r.ally_character_id)
  | _ ↦ none
]

module _ (cid : ℕ) (prev curr : SaveSnapshot) (date : String) where
  formed_changes :
      (ids : List ℕ)
      → filter_map alliance_change (run_builder (some alliance_added) cid ids prev curr date)
        ≡ map gains ids
  unfolding run_builder alliance_added
  formed_changes [] = refl
  formed_changes (a ∷ ids) = rw (formed_changes ids) refl

  broken_changes :
      (ids : List ℕ)
      → filter_map alliance_change (run_builder (some alliance_removed) cid ids prev curr date)
        ≡ map loses ids
  unfolding run_builder alliance_removed
  broken_changes [] = refl
  broken_changes (a ∷ ids) = rw (broken_changes ids) refl

  -- For a living character, the alliance events of a step, replayed in their order on the allies that
  -- the first save lists, give exactly the allies that the second save lists.
  pub alliances_replayed :
      (c : CharacterSnapshot) (x : ℕ)
      → c.is_dead ≡ false
      → member x (
          replay
            (filter_map alliance_change (make_set_differ alliances_spec cid c prev curr date))
            (get_or cid [] prev.alliances))
        ≡ member x (get_or cid [] curr.alliances)
  unfolding make_set_differ
  alliances_replayed c x h =
      let ps = get_or cid [] prev.alliances in
      let cs = get_or cid [] curr.alliances in
      elim (Bool-cases (same_set ps cs)) [
        | inl e ↦ rw h (rw e (SameMembers-same_set ps cs e x))
        | inr e ↦ rw h (
            rw e (
              rw
                (
                  filter_map-append alliance_change
                      (run_builder (some alliance_added) cid (sorted (difference cs ps)) prev curr
                        date)
                      (run_builder (some alliance_removed) cid (sorted (difference ps cs)) prev curr
                        date),
                  formed_changes (sorted (difference cs ps)),
                  broken_changes (sorted (difference ps cs)),
                )
                (replay-difference x ps cs)))
      ]
