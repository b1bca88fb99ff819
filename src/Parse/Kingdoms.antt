-- ===== src/Parse/Kingdoms.antt =====
-- src/chronicler/save/parse.py: the walk up the lieges ends, and finds each kingdom its empire.
use ck3_llm_chronicler.Base.{
  ℕ, zero, suc, ◌+◌, ◌<◌, true, false, List, [], ◌∷◌, Option, none, some, ◌≡?◌, nat_order,
  text_order, Dict, get, member, keys, length, ◌≡◌, refl, arith, inl, inr, Bool-cases, All, Has,
  ◌&&◌, ◌∙◌, eq_of_≡?, sym, subst,
}
use ck3_llm_chronicler.Snapshot.{TitleSnapshot}
use ck3_llm_chronicler.Parse.Titles.{
  empire_above, add_kingdoms, add_kingdom, build_kingdoms_by_de_jure_empire,
}
use ck3_llm_chronicler.Parse.Index.{lists, add_to_lem}
use ck3_llm_chronicler.Parse.Unseen.{
  unseen, unseen-le, unseen-lt, unseen-nil, length-keys, get-member-keys,
}

-- Every title stands under its own id.
abbrev pub IsKeyed : Dict ℕ TitleSnapshot → Type 0
IsKeyed titles = (k : ℕ) (t : TitleSnapshot) → get k titles ≡ some t → t.title_id ≡ k

pub items-IsKeyed :
    (titles : Dict ℕ TitleSnapshot) → All (λ e. e.1.title_id ≡ e.0) titles → IsKeyed titles
unfolding get
items-IsKeyed [] h k t e = absurd cc
items-IsKeyed ((j, v) ∷ titles) (p, h) k t e = elim (Bool-cases (k ≡? j)) [
  | inl s ↦ let found : v ≡ t = ground arith in rw (← found) (p ∙ sym (eq_of_≡? k j s))
  | inr s ↦ items-IsKeyed titles h k t (ground arith)
]

-- `e` is reached from the title by de jure lieges, each step of which is a title of the save.
pub data Under (titles : Dict ℕ TitleSnapshot) (e : ℕ) : TitleSnapshot → Type 0 where
  itself : (t : TitleSnapshot) → (t.tier ≡? "empire") ≡ true → t.title_id ≡ e → Under titles e t
  above :
      (t u : TitleSnapshot) (liege : ℕ)
      → t.de_jure_liege_id ≡ some liege
      → get liege titles ≡ some u
      → Under titles e u
      → Under titles e t

module _ (titles : Dict ℕ TitleSnapshot) where
  abbrev Finds : Option TitleSnapshot → Option ℕ → Type 0
  Finds current none = Unit
  Finds none (some e) = ⊥
  Finds (some t) (some e) = Under titles e t

  abbrev Walks : Option TitleSnapshot → Option (Option ℕ) → Type 0
  Walks current o = (found : Option ℕ) × (o ≡ some found) × Finds current found

  lift :
      (t : TitleSnapshot) (liege : ℕ) (current : Option TitleSnapshot) (o : Option (Option ℕ))
      → t.de_jure_liege_id ≡ some liege
      → get liege titles ≡ current
      → Walks current o
      → Walks (some t) o
  lift t liege none o h g (none, e, f) = (none, e, tt)
  lift t liege none o h g (some k, e, f) = absurd f
  lift t liege (some u) o h g (none, e, f) = (none, e, tt)
  lift t liege (some u) o h g (some k, e, f) = (some k, e, above t u liege h g f)

  -- What the rounds after the first give.
  abbrev Climbs : ℕ → TitleSnapshot → List ℕ → Type 0
  Climbs fuel t seen =
      (liege : ℕ)
      → t.de_jure_liege_id ≡ some liege
      → Walks (some t) (empire_above fuel titles (get liege titles) (t.title_id ∷ seen))

  climb :
      (fuel : ℕ) (t : TitleSnapshot) (seen : List ℕ) (o : Option ℕ)
      → t.de_jure_liege_id ≡ o
      → Climbs fuel t seen
      → Walks (some t) (elim o [
        | none ↦ some none
        | some liege ↦ empire_above fuel titles (get liege titles) (t.title_id ∷ seen)
      ])
  climb fuel t seen none e next = (none, refl, tt)
  climb fuel t seen (some liege) e next = next liege e

  round :
      (fuel : ℕ) (t : TitleSnapshot) (seen : List ℕ)
      → (member t.title_id seen ≡ false → Climbs fuel t seen)
      → Walks (some t) (empire_above (suc fuel) titles (some t) seen)
  unfolding empire_above
  round fuel t seen next = elim (Bool-cases (member t.title_id seen)) [
    | inl m ↦ rw (m, empire_above) (none, refl, tt)
    | inr m ↦ elim (Bool-cases (t.tier ≡? "empire")) [
      | inl e ↦ rw (m, empire_above) (rw e (some t.title_id, refl, itself t e refl))
      | inr e ↦ rw (m, empire_above) (rw e (climb fuel t seen t.de_jure_liege_id refl (next m)))
    ]
  ]

  module _ (keyed : IsKeyed titles) where
    abbrev InTitles : Option TitleSnapshot → Type 0
    InTitles current =
        (t : TitleSnapshot) → current ≡ some t → member t.title_id (keys titles) ≡ true

    liege-InTitles : (liege : ℕ) → InTitles (get liege titles)
    liege-InTitles liege u e = rw (keyed liege u e) (get-member-keys liege u titles e)

    empire_above-Walks :
        (fuel : ℕ) (current : Option TitleSnapshot) (seen : List ℕ)
        → InTitles current
        → unseen seen (keys titles) < fuel
        → Walks current (empire_above fuel titles current seen)
    unfolding empire_above
    empire_above-Walks zero current seen h l = absurd (omega arith)
    empire_above-Walks (suc fuel) none seen h l = (none, refl, tt)
    empire_above-Walks (suc fuel) (some t) seen h l = round fuel t seen (λ m liege e.
        lift t liege (get liege titles) _ e refl (
          empire_above-Walks fuel (get liege titles) (t.title_id ∷ seen) (liege-InTitles liege)
            (omega (arith, l, unseen-lt t.title_id seen (keys titles) (h t refl) m))))

    -- The walk from any title, in the save or not.
    start-Walks :
        (t : TitleSnapshot) → Walks (some t) (empire_above (length titles + 2) titles (some t) [])
    start-Walks t =
        let e : length titles + 2 ≡ suc (length titles + 1) = omega arith in
        rw e (
          round (length titles + 1) t [] (λ m liege l. lift t liege (get liege titles) _ l refl (
            empire_above-Walks (length titles + 1) (get liege titles) (t.title_id ∷ [])
              (liege-InTitles liege)
              (omega (
                arith,
                unseen-le t.title_id [] (keys titles),
                unseen-nil (keys titles),
                length-keys titles,
              )))))

    -- A kingdom of the save, below that empire.
    abbrev pub Belongs : ℕ → ℕ → Type 0
    Belongs e kid =
        (t : TitleSnapshot) × Has (kid, t) titles × (t.tier ≡ "kingdom") × Under titles e t

    abbrev pub AllBelong : Dict ℕ (List ℕ) → Type 0
    AllBelong by_empire = (e kid : ℕ) → lists e kid by_empire ≡ true → Belongs e kid

    add_kingdom-AllBelong :
        (tid : ℕ) (t : TitleSnapshot) (found : Option ℕ) (by_empire : Dict ℕ (List ℕ))
        → Has (tid, t) titles
        → t.tier ≡ "kingdom"
        → Finds (some t) found
        → AllBelong by_empire
        → AllBelong (add_kingdom tid found by_empire)
    add_kingdom-AllBelong tid t none by_empire h k f b e kid l = b e kid l
    add_kingdom-AllBelong tid t (some empire) by_empire h k f b e kid l =
        elim (Bool-cases ((e ≡? empire) && (kid ≡? tid))) [
          | inl same ↦
              let e_is : empire ≡ e = sym (eq_of_≡? e empire (ground arith)) in
              let kid_is : tid ≡ kid = sym (eq_of_≡? kid tid (ground arith)) in
              subst (λ (x : ℕ). Belongs x kid) e_is (subst (Belongs empire) kid_is (t, h, k, f))
          | inr other ↦ b e kid (ground (arith, add_to_lem empire tid e kid by_empire))
        ]

    abbrev Placed : Option (Dict ℕ (List ℕ)) → Type 0
    Placed o = (by_empire : Dict ℕ (List ℕ)) × (o ≡ some by_empire) × AllBelong by_empire

    add_kingdoms-Placed :
        (rest : List (ℕ × TitleSnapshot)) (by_empire : Dict ℕ (List ℕ))
        → ((x : ℕ × TitleSnapshot) → Has x rest → Has x titles)
        → AllBelong by_empire
        → Placed (add_kingdoms titles rest by_empire)
    unfolding add_kingdoms
    add_kingdoms-Placed [] by_empire h b = (by_empire, refl, b)
    add_kingdoms-Placed ((tid, t) ∷ rest) by_empire h b = elim (Bool-cases (t.tier ≡? "kingdom")) [
      | inl k ↦
          let (found, e, f) = start-Walks t in
          rw k (
            rw e (
              add_kingdoms-Placed rest (add_kingdom tid found by_empire) (λ x m. h x (inr m))
                (add_kingdom-AllBelong tid t found by_empire (h (tid, t) (inl refl))
                  (eq_of_≡? t.tier "kingdom" k) f b)))
      | inr k ↦ rw k (add_kingdoms-Placed rest by_empire (λ x m. h x (inr m)) b)
    ]

-- Over titles that stand under their own ids, whatever cycles their lieges make, the index of the
-- kingdoms is built: the fuel is never used up. What it lists under an empire are kingdoms of the
-- save from which a chain of de jure lieges, all of them titles of the save, leads up to the empire.
pub build_kingdoms_total :
    (titles : Dict ℕ TitleSnapshot) (keyed : IsKeyed titles)
    → (by_empire : Dict ℕ (List ℕ)) × (build_kingdoms_by_de_jure_empire titles ≡ some by_empire)
      × AllBelong titles keyed by_empire
unfolding build_kingdoms_by_de_jure_empire get member
build_kingdoms_total titles keyed =
    add_kingdoms-Placed titles keyed titles [] (λ x m. m) (λ e kid l. absurd cc)
