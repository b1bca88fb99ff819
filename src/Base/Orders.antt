-- ===== src/Base/Orders.antt =====
-- What Python's `<=` and `==` are on the keys that the program sorts and compares: a total order.
use Prim.Native.Char.{code}
use Prim.Native.Nat.{ℕ}
use Prim.Native.String.{String}
use mathlib.Core.Bool.{Bool, true, false, ◌&&◌, ◌||◌}
use mathlib.Core.Logic.{◌↔◌}
use mathlib.Core.Option.{Option, none, some}
use mathlib.Core.Path.{◌≡◌, refl, ap, ap₂}
use native.Mathlib.Omega.{arith}
use text.Mathlib.TextEquality.{Char-path}
use ck3_llm_chronicler.Base.Tests.{leb, ltb, ◌==◌, if◌then◌else◌}

pub record Order (A : Type 0) : Type 0 where
  pub le? : A → A → Bool
  pub le?_refl : (a : A) → le? a a ≡ true
  pub le?_total : (a b : A) → le? a b ≡ false → le? b a ≡ true
  pub le?_trans : (a b c : A) → le? a b ≡ true → le? b c ≡ true → le? a c ≡ true
  pub le?_antisymm : (a b : A) → le? a b ≡ true → le? b a ≡ true → a ≡ b

infix 50 ◌≤?◌ ◌≡?◌
abbrev pub ◌≤?◌ : {A : Type 0} ⦃o : Order A⦄ → A → A → Bool
◌≤?◌ ⦃o⦄ = o.le?

abbrev pub ◌≡?◌ : {A : Type 0} ⦃o : Order A⦄ → A → A → Bool
a ≡? b = (a ≤? b) && (b ≤? a)

module _ {A : Type 0} ⦃o : Order A⦄ where
  pub ≡?_refl : (a : A) → (a ≡? a) ≡ true
  ≡?_refl a = ground (arith, o.le?_refl a)

  pub eq_of_≡? : (a b : A) → (a ≡? b) ≡ true → a ≡ b
  eq_of_≡? a b h = o.le?_antisymm a b (ground arith) (ground arith)

  pub ≡?_of_eq : (a b : A) → a ≡ b → (a ≡? b) ≡ true
  ≡?_of_eq a b h = rw h (≡?_refl b)

  pub ≡?_iff : (a b : A) → ((a ≡? b) ≡ true) ↔ (a ≡ b)
  ≡?_iff a b = (eq_of_≡? a b, ≡?_of_eq a b)

pub nat_refl : (a : ℕ) → leb a a ≡ true
nat_refl a = ground arith

pub nat_total : (a b : ℕ) → leb a b ≡ false → leb b a ≡ true
nat_total a b h = ground arith

pub nat_trans : (a b c : ℕ) → leb a b ≡ true → leb b c ≡ true → leb a c ≡ true
nat_trans a b c h k = ground arith

pub nat_antisymm : (a b : ℕ) → leb a b ≡ true → leb b a ≡ true → a ≡ b
nat_antisymm a b h k = ground arith

instance abbrev pub nat_order : Order ℕ
nat_order = record {
  le? = leb;
  le?_refl = nat_refl;
  le?_total = nat_total;
  le?_trans = nat_trans;
  le?_antisymm = nat_antisymm;
}

-- Python compares text by code points.
abbrev pub text_le? : String → String → Bool
text_le? String.[] t = true
text_le? (String.◌∷◌ c s) String.[] = false
text_le? (String.◌∷◌ c s) (String.◌∷◌ d t) =
    let rest = text_le? s t in ltb (code c) (code d) || ((code c == code d) && rest)

pub text_refl : (s : String) → text_le? s s ≡ true
text_refl String.[] = refl
text_refl (String.◌∷◌ c s) = ground (arith, text_refl s)

pub text_total : (s t : String) → text_le? s t ≡ false → text_le? t s ≡ true
text_total String.[] t h = ground arith
text_total (String.◌∷◌ c s) String.[] h = refl
text_total (String.◌∷◌ c s) (String.◌∷◌ d t) h = ground (arith, text_total s t)

pub text_trans : (s t u : String) → text_le? s t ≡ true → text_le? t u ≡ true → text_le? s u ≡ true
text_trans String.[] t u h k = refl
text_trans (String.◌∷◌ c s) String.[] u h k = ground arith
text_trans (String.◌∷◌ c s) (String.◌∷◌ d t) String.[] h k = ground arith
text_trans (String.◌∷◌ c s) (String.◌∷◌ d t) (String.◌∷◌ e u) h k = ground (arith, text_trans s t u)

pub text_antisymm : (s t : String) → text_le? s t ≡ true → text_le? t s ≡ true → s ≡ t
text_antisymm String.[] String.[] h k = refl
text_antisymm String.[] (String.◌∷◌ d t) h k = cc
text_antisymm (String.◌∷◌ c s) String.[] h k = cc
text_antisymm (String.◌∷◌ c s) (String.◌∷◌ d t) h k =
    ap₂ String.◌∷◌ (Char-path c d (ground arith)) (text_antisymm s t (ground arith) (ground arith))

instance abbrev pub text_order : Order String
text_order = record {
  le? = text_le?;
  le?_refl = text_refl;
  le?_total = text_total;
  le?_trans = text_trans;
  le?_antisymm = text_antisymm;
}

-- Tuples compare by the first part, then by the second.
module _ {A B : Type 0} ⦃o : Order A⦄ ⦃p : Order B⦄ where
  abbrev pub pair_le? : A × B → A × B → Bool
  pair_le? (a, b) (c, d) = if a ≤? c then (if c ≤? a then b ≤? d else true) else false

  pub pair_refl : (x : A × B) → pair_le? x x ≡ true
  pair_refl (a, b) = ground (arith, o.le?_refl a, p.le?_refl b)

  pub pair_total : (x y : A × B) → pair_le? x y ≡ false → pair_le? y x ≡ true
  pair_total (a, b) (c, d) h = ground (arith, o.le?_total a c, p.le?_total b d)

  pub pair_trans : (x y z : A × B) → pair_le? x y ≡ true → pair_le? y z ≡ true → pair_le? x z ≡ true
  pair_trans (a, b) (c, d) (e, f) h k =
      ground (arith, o.le?_trans a c e, o.le?_trans e a c, o.le?_trans c e a, p.le?_trans b d f)

  pub pair_antisymm : (x y : A × B) → pair_le? x y ≡ true → pair_le? y x ≡ true → x ≡ y
  pair_antisymm (a, b) (c, d) h k = ground (arith, o.le?_antisymm a c, p.le?_antisymm b d)

  instance abbrev pub pair_order : Order (A × B)
  pair_order = record {
    le? = pair_le?;
    le?_refl = pair_refl;
    le?_total = pair_total;
    le?_trans = pair_trans;
    le?_antisymm = pair_antisymm;
  }

-- `==` on a value that may be `None`
abbrev pub same_option : {A : Type 0} ⦃o : Order A⦄ → Option A → Option A → Bool
same_option none none = true
same_option none (some b) = false
same_option (some a) none = false
same_option (some a) (some b) = a ≡? b

module _ {A : Type 0} ⦃o : Order A⦄ where
  pub same_option_refl : (a : Option A) → same_option a a ≡ true
  same_option_refl none = refl
  same_option_refl (some a) = ≡?_refl a

  pub eq_of_same_option : (a b : Option A) → same_option a b ≡ true → a ≡ b
  eq_of_same_option none none h = refl
  eq_of_same_option none (some b) h = cc
  eq_of_same_option (some a) none h = cc
  eq_of_same_option (some a) (some b) h = ap some (eq_of_≡? a b h)
