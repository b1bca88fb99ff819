-- ===== src/Diff/Types.antt =====
-- What the functions of save/diff.py return: events, or one of the exceptions that they raise.
use ck3_llm_chronicler.Base.{
  ℕ, String, Bool, true, false, not, List, [], ◌∷◌, Option, none, some, if◌then◌else◌, ◌≡?◌,
  text_order,
}
use ck3_llm_chronicler.Events.{Event, Payload, schema_version}

-- A role and the id of the character in it.
abbrev pub Participants : Type 0
Participants = List (String × ℕ)

pub record DiffEvent : Type 0 where
  pub event : Event
  pub participants : Participants

-- `DiffEvent(event=...Event(d=d, c=c, p=p), participants=...)`: `v` and `t` have their defaults
abbrev pub diff_event : String → ℕ → Payload → Participants → DiffEvent
diff_event d c p who = record {
  event = record { v = schema_version; d = d; c = c; p = p };
  participants = who;
}

pub data Error : Type 0 where
  playthrough_mismatch : String → String → Error
  key_error : ℕ → Error

pub data Result (A : Type 0) : Type 0 where
  ok : A → Result A
  raise : Error → Result A

infixl 5 ◌>>=◌
abbrev pub ◌>>=◌ : {A B : Type 0} → Result A → (A → Result B) → Result B
ok a >>= f = f a
raise e >>= f = raise e

-- `m[k]` on a dict
abbrev pub or_key_error : {A : Type 0} → ℕ → Option A → Result A
or_key_error k none = raise (key_error k)
or_key_error k (some a) = ok a

-- `bool(text)`
abbrev pub non_empty : String → Bool
non_empty s = not (s ≡? "")

-- `value or default`, on a text that may be missing or empty
abbrev pub or_default : Option String → String → String
or_default none d = d
or_default (some s) d = if non_empty s then s else d

-- `text or None`
abbrev pub none_if_empty : String → Option String
none_if_empty s = if non_empty s then some s else none

abbrev pub option_map : {A B : Type 0} → (A → B) → Option A → Option B
option_map f none = none
option_map f (some a) = some (f a)

abbrev pub option_bind : {A B : Type 0} → Option A → (A → Option B) → Option B
option_bind none f = none
option_bind (some a) f = f a

abbrev pub is_some : {A : Type 0} → Option A → Bool
is_some none = false
is_some (some a) = true

abbrev pub is_none : {A : Type 0} → Option A → Bool
is_none none = true
is_none (some a) = false

-- A participant under `role`, if there is one.
abbrev pub participant : String → Option ℕ → Participants
participant role none = []
participant role (some a) = (role, a) ∷ []
