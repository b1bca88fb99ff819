-- ===== src/Bus/Subscribed.antt =====
-- src/chronicler/api/events.py: a subscriber stays subscribed, to its campaign only.
use ck3_llm_chronicler.Base.{
  ℕ, ◌+◌, ◌≤◌, String, Bool, true, false, not, ◌&&◌, List, [], ◌∷◌, ◌++◌, Option, none, some,
  if◌then◌else◌, ◌≡?◌, nat_order, text_order, Dict, get, get_or, put, get-put, get-pop, filter,
  is_empty, ◌≡◌, ◌∙◌, sym, ap, refl, arith, inl, inr, Bool-cases, Option-cases, eq_of_≡?, subst,
}
use ck3_llm_chronicler.Bus.{left_without}
use ck3_llm_chronicler.Bus.Delivery.{times}

abbrev pub Subscribers : Type 0
Subscribers = Dict String (List ℕ)

pub record IsSubscribed (q : ℕ) (campaign : String) (subscribers : Subscribers) : Type 0 where
  pub qids : List ℕ
  pub found : get campaign subscribers ≡ some qids
  pub once : times q qids ≡ 1
  pub nowhere_else :
      (k : String) (ks : List ℕ)
      → (k ≡? campaign) ≡ false
      → get k subscribers ≡ some ks
      → times q ks ≡ 0

times-append : (q : ℕ) (xs ys : List ℕ) → times q (xs ++ ys) ≡ times q xs + times q ys
times-append q [] ys = omega arith
times-append q (x ∷ xs) ys = omega (arith, times-append q xs ys)

times-without :
    (q j : ℕ) (ks : List ℕ)
    → (q ≡? j) ≡ false
    → times q (filter (λ k. not (k ≡? j)) ks) ≡ times q ks
times-without q j [] h = refl
times-without q j (k ∷ ks) h = ground (arith, times-without q j ks h, eq_of_≡? q k)

times-filter : (q : ℕ) (p : ℕ → Bool) (ks : List ℕ) → times q (filter p ks) ≤ times q ks
times-filter q p [] = omega arith
times-filter q p (k ∷ ks) = ground (arith, times-filter q p ks)

not_empty : (q : ℕ) (ks : List ℕ) → times q ks ≡ 1 → is_empty ks ≡ false
not_empty q [] h = absurd (omega arith)
not_empty q (k ∷ ks) h = refl

module _ (q : ℕ) (campaign c : String) (subs later : Subscribers) (new : Option (List ℕ)) where
  -- The queues of one campaign are replaced.
  replaced-IsSubscribed :
      IsSubscribed q campaign subs
      → ((k : String) → get k later ≡ (if k ≡? c then new else get k subs))
      → ((campaign ≡? c) ≡ true → (ks : List ℕ) × (new ≡ some ks) × (times q ks ≡ 1))
      → ((ks : List ℕ) → (c ≡? campaign) ≡ false → new ≡ some ks → times q ks ≡ 0)
      → IsSubscribed q campaign later
  replaced-IsSubscribed s g here there = elim (Bool-cases (campaign ≡? c)) [
    | inl e ↦
        let (ks, is_new, one) = here e in
        record {
          qids = ks;
          found = g campaign ∙ rw e is_new;
          once = one;
          nowhere_else = λ k js n f. others k js n (sym (g k) ∙ f);
        }
    | inr e ↦ record {
      qids = s.qids;
      found = g campaign ∙ rw e s.found;
      once = s.once;
      nowhere_else = λ k js n f. others k js n (sym (g k) ∙ f);
    }
  ]
    where
      others :
          (k : String) (js : List ℕ)
          → (k ≡? campaign) ≡ false
          → (if k ≡? c then new else get k subs) ≡ some js
          → times q js ≡ 0
      others k js n f = elim (Bool-cases (k ≡? c)) [
        | inl e ↦
            there js (subst (λ (x : String). (x ≡? campaign) ≡ false) (eq_of_≡? k c e) n)
              (rw e at f)
        | inr e ↦ s.nowhere_else k js n (rw e at f)
      ]

get-left_without :
    (c k : String) (ks : List ℕ) (subs : Subscribers)
    → get k (left_without c ks subs)
      ≡ (if k ≡? c then (if is_empty ks then none else some ks) else get k subs)
get-left_without c k ks subs = elim (Bool-cases (is_empty ks)) [
  | inl e ↦ rw (e, left_without) (get-pop c k subs)
  | inr e ↦ rw (e, left_without) (get-put c k ks subs)
]

get_or-IsSubscribed :
    (q : ℕ) (campaign : String) (subs : Subscribers) (s : IsSubscribed q campaign subs)
    → get_or campaign [] subs ≡ s.qids
get_or-IsSubscribed q campaign subs s = rw (s.found, get_or) refl

-- A campaign that the queue is not on, by the list that stands for it.
get_or-elsewhere :
    (q : ℕ) (campaign c : String) (subs : Subscribers)
    → IsSubscribed q campaign subs
    → (c ≡? campaign) ≡ false
    → times q (get_or c [] subs) ≡ 0
get_or-elsewhere q campaign c subs s n = elim (Option-cases (get c subs)) [
  | inl e ↦ rw (e, get_or) refl
  | inr (ks, e) ↦ rw (e, get_or) (s.nowhere_else c ks n e)
]

pub register-IsSubscribed :
    (q new : ℕ) (campaign c : String) (subs : Subscribers)
    → (q ≡? new) ≡ false
    → IsSubscribed q campaign subs
    → IsSubscribed q campaign (put c (get_or c [] subs ++ (new ∷ [])) subs)
register-IsSubscribed q new campaign c subs d s =
    let more : List ℕ = get_or c [] subs ++ (new ∷ []) in
    replaced-IsSubscribed q campaign c subs (put c more subs) (some more) s
      (λ k. get-put c k more subs)
      (λ e.
        let same : campaign ≡ c = eq_of_≡? campaign c e in
        let listed : get_or c [] subs ≡ s.qids =
          subst (λ (x : String). get_or x [] subs ≡ s.qids) same
            (get_or-IsSubscribed q campaign subs s) in
        (
          more,
          refl,
          times-append q (get_or c [] subs) (new ∷ []) ∙ rw listed (ground (arith, s.once)),
        ))
      (λ ks n e.
        let is : more ≡ ks = cc in
        rw (← is) (
          times-append q (get_or c [] subs) (new ∷ [])
          ∙ ground (arith, get_or-elsewhere q campaign c subs s n)))

pub unsubscribe-IsSubscribed :
    (q j : ℕ) (campaign c : String) (ks : List ℕ) (subs : Subscribers)
    → ((c ≡? campaign) && (j ≡? q)) ≡ false
    → get c subs ≡ some ks
    → IsSubscribed q campaign subs
    → IsSubscribed q campaign (left_without c (filter (λ k. not (k ≡? j)) ks) subs)
unsubscribe-IsSubscribed q j campaign c ks subs d g s =
    let rest : List ℕ = filter (λ (k : ℕ). not (k ≡? j)) ks in
    replaced-IsSubscribed q campaign c subs (left_without c rest subs)
      (if is_empty rest then none else some rest) s (λ k. get-left_without c k rest subs)
      (λ e.
        let same : campaign ≡ c = eq_of_≡? campaign c e in
        let is : ks ≡ s.qids =
          (let both : some ks ≡ some s.qids =
              sym g ∙ subst (λ (x : String). get x subs ≡ some s.qids) same s.found in
            cc) in
        let other : (q ≡? j) ≡ false = ground (arith, eq_of_≡? campaign c e) in
        let once : times q rest ≡ 1 = times-without q j ks other ∙ (ap (times q) is ∙ s.once) in
        (rest, rw (not_empty q rest once) refl, once))
      (λ js n e.
        let zero_there : times q ks ≡ 0 = s.nowhere_else c ks n g in
        let few : times q rest ≤ times q ks = times-filter q (λ (k : ℕ). not (k ≡? j)) ks in
        elim (Bool-cases (is_empty rest)) [
          | inl f ↦ absurd (let bad : none ≡ some js = rw f at e in cc)
          | inr f ↦
              (let is : some rest ≡ some js = rw f at e in
                let eq : rest ≡ js = cc in rw (← eq) (omega (arith, few, zero_there)))
        ])
