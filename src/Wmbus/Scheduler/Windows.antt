-- ===== src/Wmbus/Scheduler/Windows.antt =====
-- validate_windows of src/wmbus/radio/scheduler.rs against the order of all pairs of windows.
use mbuscrate.Prelude.{
  some, ℕ, ◌+◌, ◌≤◌, ◌≡◌, ◌↔◌, refl, List, [], ◌∷◌, false, ltb, ok, All, Bool-cases, inl, inr,
  arith,
}
use mbuscrate.Wmbus.Scheduler.{
  max_duration, Driver, ScheduledWindow, validate_from, validate_windows,
}

module _ (d : Driver) where
  -- Every window has closed when any later one opens.
  abbrev pub IsDisjoint : List (ScheduledWindow d) → Type 0
  IsDisjoint [] = Unit
  IsDisjoint (w ∷ ws) = All (λ v. w.offset + w.duration ≤ v.offset) ws × IsDisjoint ws

  -- Every window ends at a time that a Duration can hold.
  abbrev pub IsBounded : List (ScheduledWindow d) → Type 0
  IsBounded ws = All (λ w. w.offset + w.duration ≤ max_duration) ws

  abbrev Opens : ℕ → List (ScheduledWindow d) → Type 0
  Opens cursor ws = All (λ v. cursor ≤ v.offset) ws

  Opens-weaken :
      (low high : ℕ) (ws : List (ScheduledWindow d)) → low ≤ high → Opens high ws → Opens low ws
  Opens-weaken low high [] le h = tt
  Opens-weaken low high (w ∷ ws) le (first, rest) = (omega arith, Opens-weaken low high ws le rest)

  validate_from_sound :
      (cursor : ℕ) (ws : List (ScheduledWindow d))
      → validate_from d cursor ws ≡ some (ok tt)
      → Opens cursor ws × IsDisjoint ws × IsBounded ws
  unfolding validate_from
  validate_from_sound cursor [] h = (tt, tt, tt)
  validate_from_sound cursor (w ∷ ws) h = elim (Bool-cases (ltb w.offset cursor)) [
    | inl early ↦ cc (rw early at h)
    | inr later ↦ elim (Bool-cases (ltb max_duration (w.offset + w.duration))) [
      | inl long ↦ cc (rw (later, long) at h)
      | inr fits ↦
          let (opens, rest, bounded) =
            validate_from_sound (w.offset + w.duration) ws (rw (later, fits) at h) in
          let first : cursor ≤ w.offset = ground arith in
          let bound : w.offset + w.duration ≤ max_duration = ground arith in
          (
            (first, Opens-weaken cursor (w.offset + w.duration) ws (omega arith) opens),
            (opens, rest),
            (bound, bounded),
          )
    ]
  ]

  validate_from_complete :
      (cursor : ℕ) (ws : List (ScheduledWindow d))
      → Opens cursor ws
      → IsDisjoint ws
      → IsBounded ws
      → validate_from d cursor ws ≡ some (ok tt)
  unfolding validate_from
  validate_from_complete cursor [] opens h bounded = refl
  validate_from_complete cursor (w ∷ ws) (first, opens) (after, h) (bound, bounded) =
      let later : ltb w.offset cursor ≡ false = ground arith in
      let fits : ltb max_duration (w.offset + w.duration) ≡ false = ground arith in
      rw (later, fits) (validate_from_complete (w.offset + w.duration) ws after h bounded)

  Opens-zero : (ws : List (ScheduledWindow d)) → Opens 0 ws
  Opens-zero [] = tt
  Opens-zero (w ∷ ws) = (omega arith, Opens-zero ws)

  -- validate_windows accepts exactly the schedules in which every window has closed when any later
  -- one opens, and every window ends within Duration::MAX.
  pub validate_windows_iff :
      (ws : List (ScheduledWindow d))
      → (validate_windows d ws ≡ some (ok tt)) ↔ (IsDisjoint ws × IsBounded ws)
  unfolding validate_windows
  validate_windows_iff ws = (
    (λ h. let sound = validate_from_sound 0 ws h in (sound.1, sound.2)),
    (λ h. validate_from_complete 0 ws (Opens-zero ws) h.0 h.1),
  )
