-- ===== src/Clusters/Runs.antt =====
-- The clusters are the maximal runs of deaths that follow each other within the window.
use ck3_llm_chronicler.Base.{
  ℕ, ◌+◌, ◌-◌, ◌≤◌, ◌<◌, String, Bool, true, List, [], ◌∷◌, ◌++◌, Option, some, ◌≡◌, refl, ap, ◌∙◌,
  arith, if◌then◌else◌, leb, nat_order, length, filter, filter_map, flat_map, sort_by, All,
  Bool-cases, inl, inr, append_assoc,
}
use ck3_llm_chronicler.Clusters.{
  StoredEvent, MemoryFields, DeathCluster, Candidate, candidate, day_of, last_day, joins, scan,
  cluster_of, close, close_all, detect_death_clusters,
}

-- Each death follows the one before within the window.
abbrev pub IsRun : ℕ → List Candidate → Type 0
IsRun w [] = Unit
IsRun w (c ∷ []) = Unit
IsRun w (c ∷ d ∷ cs) = (d.day - c.day ≤ w) × IsRun w (d ∷ cs)

abbrev pub first_day : List Candidate → ℕ
first_day [] = 0
first_day (c ∷ cs) = c.day

-- Each group begins more than the window after the end of the one before, the first after `day`.
abbrev pub IsApart : ℕ → ℕ → List (List Candidate) → Type 0
IsApart w day [] = Unit
IsApart w day (g ∷ gs) = (day + w < first_day g) × IsApart w (last_day g) gs

abbrev pub IsSeparated : ℕ → List (List Candidate) → Type 0
IsSeparated w [] = Unit
IsSeparated w (g ∷ gs) = IsApart w (last_day g) gs

abbrev pub concat : List (List Candidate) → List Candidate
concat gs = flat_map (λ g. g) gs

scan-concat :
    (w : ℕ) (current rest : List Candidate) → concat (scan w current rest) ≡ current ++ rest
unfolding scan
scan-concat w current [] = refl
scan-concat w current (e ∷ rest) = elim (Bool-cases (joins w current e)) [
  | inl h ↦ rw h (scan-concat w (current ++ (e ∷ [])) rest ∙ append_assoc current (e ∷ []) rest)
  | inr h ↦ rw h (ap (λ (x : List Candidate). current ++ x) (scan-concat w (e ∷ []) rest))
]

IsRun-append :
    (w : ℕ) (current : List Candidate) (e : Candidate)
    → IsRun w current
    → joins w current e ≡ true
    → IsRun w (current ++ (e ∷ []))
IsRun-append w [] e r h = tt
IsRun-append w (c ∷ []) e r h = (ground arith, tt)
IsRun-append w (c ∷ d ∷ cs) e (r, rs) h = (r, IsRun-append w (d ∷ cs) e rs h)

scan-IsRun :
    (w : ℕ) (current rest : List Candidate) → IsRun w current → All (IsRun w) (scan w current rest)
unfolding scan
scan-IsRun w current [] r = (r, tt)
scan-IsRun w current (e ∷ rest) r = elim (Bool-cases (joins w current e)) [
  | inl h ↦ rw h (scan-IsRun w (current ++ (e ∷ [])) rest (IsRun-append w current e r h))
  | inr h ↦ rw h (r, scan-IsRun w (e ∷ []) rest tt)
]

scan-IsApart :
    (w day : ℕ) (c : Candidate) (cs rest : List Candidate)
    → day + w < c.day
    → IsApart w day (scan w (c ∷ cs) rest)
unfolding scan
scan-IsApart w day c cs [] h = (h, tt)
scan-IsApart w day c cs (e ∷ rest) h = elim (Bool-cases (joins w (c ∷ cs) e)) [
  | inl n ↦ rw n (scan-IsApart w day c (cs ++ (e ∷ [])) rest h)
  | inr n ↦ rw n (h, scan-IsApart w (last_day (c ∷ cs)) e [] rest (ground arith))
]

scan-IsSeparated :
    (w : ℕ) (c : Candidate) (cs rest : List Candidate) → IsSeparated w (scan w (c ∷ cs) rest)
unfolding scan
scan-IsSeparated w c cs [] = tt
scan-IsSeparated w c cs (e ∷ rest) = elim (Bool-cases (joins w (c ∷ cs) e)) [
  | inl n ↦ rw n (scan-IsSeparated w c (cs ++ (e ∷ [])) rest)
  | inr n ↦ rw n (scan-IsApart w (last_day (c ∷ cs)) e [] rest (ground arith))
]

start-IsSeparated : (w : ℕ) (rest : List Candidate) → IsSeparated w (scan w [] rest)
unfolding scan
start-IsSeparated w [] = tt
start-IsSeparated w (e ∷ rest) = scan-IsSeparated w e [] rest

-- The cluster of a group that is not empty.
abbrev pub group_cluster : List Candidate → List DeathCluster
group_cluster [] = []
group_cluster (c ∷ cs) = cluster_of c cs ∷ []

abbrev pub is_large : ℕ → List Candidate → Bool
is_large min_count g = leb min_count (length g)

close_lem :
    (n : ℕ) (g : List Candidate)
    → 1 ≤ n
    → close n g ≡ some (if is_large n g then group_cluster g else [])
unfolding close
close_lem n [] h = ground arith
close_lem n (c ∷ cs) h = ground arith

close_all_lem :
    (n : ℕ) (gs : List (List Candidate))
    → 1 ≤ n
    → close_all n gs ≡ some (flat_map group_cluster (filter (is_large n) gs))
unfolding close_all
close_all_lem n [] h = refl
close_all_lem n (g ∷ gs) h = elim (Bool-cases (is_large n g)) [
  | inl e ↦ rw (close_lem n g h) (rw (close_all_lem n gs h) (rw e refl))
  | inr e ↦ rw (close_lem n g h) (rw (close_all_lem n gs h) (rw e refl))
]

-- For any events and any least count from 1 on, the detection succeeds. The dated deaths, sorted by
-- day, are cut into groups that together are all of them in order, such that inside a group each death
-- is within the window of the one before, and each group begins more than the window after the last
-- death of the one before; and the clusters are those groups, in order, that have the least count.
pub detect_death_clusters_lem :
    (loads : String → Option MemoryFields) (fromisoformat : String → Option ℕ)
    (min_count window_days : ℕ) (events : List StoredEvent)
    → 1 ≤ min_count
    → (groups : List (List Candidate)) × (concat groups
        ≡ sort_by day_of (filter_map (candidate loads fromisoformat) events))
      × All (IsRun window_days) groups
      × IsSeparated window_days groups
      × (detect_death_clusters loads fromisoformat min_count window_days events
          ≡ some (flat_map group_cluster (filter (is_large min_count) groups)))
unfolding detect_death_clusters
detect_death_clusters_lem loads fromisoformat n w events h =
    let found = sort_by day_of (filter_map (candidate loads fromisoformat) events) in
    (
      scan w [] found,
      scan-concat w [] found,
      scan-IsRun w [] found tt,
      start-IsSeparated w found,
      close_all_lem n (scan w [] found) h,
    )
