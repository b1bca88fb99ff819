-- ===== src/Pause/Freshness.antt =====
-- src/chronicler/narrative/pause.py: how old an answer of the pause gate can be.
use ck3_llm_chronicler.Base.{
  ℕ, ◌+◌, ◌-◌, ◌≤◌, ◌<◌, Bool, List, [], ◌∷◌, Option, ltb, Bool-cases, ◌⊎◌, inl, inr, ◌≡◌, refl,
  arith,
}
use ck3_llm_chronicler.Pause.{
  PausedCache, llm_paused_cache_ttl, flag_of, is_llm_paused, reset_llm_paused_cache,
}

-- What is done with the gate, each at its time.
pub data Call : Type 0 where
  asks : ℕ → Call
  resets : ℕ → Call

abbrev pub time_of : Call → ℕ
time_of (asks now) = now
time_of (resets now) = now

abbrev pub answers : (ℕ → Option Bool) → PausedCache → List Call → List Bool
answers settings cache [] = []
answers settings cache (asks now ∷ calls) =
    let (answer, cache₁) = is_llm_paused settings now cache in
    answer ∷ answers settings cache₁ calls
answers settings cache (resets now ∷ calls) = answers settings reset_llm_paused_cache calls

-- The clock does not run backwards from `start`.
abbrev pub InOrder : ℕ → List Call → Type 0
InOrder start [] = Unit
InOrder start (call ∷ calls) = (start ≤ time_of call) × InOrder (time_of call) calls

-- The flag as it stood at a moment not before the last reset and less than the time to live ago.
abbrev pub FreshAnswer : (ℕ → Option Bool) → ℕ → ℕ → Bool → Type 0
FreshAnswer settings last_reset now answer =
    (read_at : ℕ) × (last_reset ≤ read_at)
    × (read_at ≤ now)
    × (now < read_at + llm_paused_cache_ttl)
    × (answer ≡ flag_of (settings read_at))

-- One answer for each question, and it is fresh.
abbrev pub AllFresh : (ℕ → Option Bool) → ℕ → List Call → List Bool → Type 0
AllFresh settings last_reset [] given = given ≡ []
AllFresh settings last_reset (asks now ∷ calls) [] = ⊥
AllFresh settings last_reset (asks now ∷ calls) (answer ∷ given) =
    FreshAnswer settings last_reset now answer × AllFresh settings last_reset calls given
AllFresh settings last_reset (resets now ∷ calls) given = AllFresh settings now calls given

-- The cache was reset, or holds the flag as it was read after the last reset.
abbrev Valid : (ℕ → Option Bool) → ℕ → ℕ → PausedCache → Type 0
Valid settings last_reset now cache =
    (cache.checked_at ≡ 0)
    ⊎ ((last_reset ≤ cache.checked_at)
        × (cache.checked_at ≤ now)
        × (cache.value ≡ flag_of (settings cache.checked_at)))

module _ (settings : ℕ → Option Bool) where
  later-Valid :
      (last_reset start now : ℕ) (cache : PausedCache)
      → start ≤ now
      → Valid settings last_reset start cache
      → Valid settings last_reset now cache
  later-Valid last_reset start now cache h (inl e) = inl e
  later-Valid last_reset start now cache h (inr (a, b, c)) = inr (a, omega arith, c)

  all_fresh :
      (last_reset start : ℕ) (cache : PausedCache) (calls : List Call)
      → llm_paused_cache_ttl ≤ start
      → last_reset ≤ start
      → Valid settings last_reset start cache
      → InOrder start calls
      → AllFresh settings last_reset calls (answers settings cache calls)
  unfolding is_llm_paused
  all_fresh last_reset start cache [] t l v o = refl
  all_fresh last_reset start cache (resets now ∷ calls) t l v (h, o) =
      all_fresh now now reset_llm_paused_cache calls (omega arith) (omega arith) (inl refl) o
  all_fresh last_reset start cache (asks now ∷ calls) t l v (h, o) =
      let soon = ltb (now - cache.checked_at) llm_paused_cache_ttl in
      elim (Bool-cases soon) [
        | inl e ↦ elim v [
          | inl z ↦ absurd (ground (arith, e, z))
          | inr (a, b, c) ↦ rw e (
            (cache.checked_at, a, omega arith, ground (arith, e), c),
            all_fresh last_reset now cache calls (omega arith) (omega arith)
                (later-Valid last_reset start now cache h (inr (a, b, c))) o,
          )
        ]
        | inr e ↦ rw e (
          (now, omega arith, omega arith, omega arith, refl),
          all_fresh last_reset now (record { checked_at = now; value = flag_of (settings now) })
              calls (omega arith) (omega arith) (inr (omega arith, omega arith, refl)) o,
        )
      ]

  -- From a reset cache, over questions and resets in the order of a clock that has run for a second, the
  -- gate gives one answer to each question, and each is what the settings said at a moment less than one
  -- second before the question and not before the last reset.
  pub answers-AllFresh :
      (start : ℕ) (calls : List Call)
      → llm_paused_cache_ttl ≤ start
      → InOrder start calls
      → AllFresh settings 0 calls (answers settings reset_llm_paused_cache calls)
  answers-AllFresh start calls t o =
      all_fresh 0 start reset_llm_paused_cache calls t (omega arith) (inl refl) o
