-- ===== src/Wmbus/Scheduler/Base.antt =====
-- Where a run of src/wmbus/radio/scheduler.rs leaves the radio.
use mbuscrate.Prelude.{
  Option, none, some, ltb, ℕ, ◌+◌, ◌≡◌, refl, sym, ap, ◌∙◌, List, [], ◌∷◌, true, Result, ok, err,
  Bool-cases, inl, inr,
}
use mbuscrate.Wmbus.Scheduler.{
  if_instant, max_duration, Driver, CancelToken, Completed, finished, cancelled, Wait, elapsed,
  cancelled_early, ScheduledWindow, SchedulerError, radio, overlapping_windows, recovery_failed,
  recovery_failed_cancelled, World, Step, and_then, change_profile, noted, enter_profile_rx,
  wait_until, if_elapsed, if_entered, open_windows, run_inner, restore_base, restored,
  restored_cancelled, end_run, if_valid, validate_windows, validate_from, run, looked,
}

module _ (d : Driver) where
  -- What validate_windows can return.
  abbrev IsOverlap : Option (Result (SchedulerError d) (Unit {0})) → Type 0
  IsOverlap none = Unit {0}
  IsOverlap (some (ok u)) = Unit {0}
  IsOverlap (some (err (overlapping_windows offset))) = Unit {0}
  IsOverlap (some (err (radio e))) = ⊥
  IsOverlap (some (err (recovery_failed original recovery))) = ⊥
  IsOverlap (some (err (recovery_failed_cancelled recovery))) = ⊥

  validate_from-IsOverlap :
      (cursor : ℕ) (ws : List (ScheduledWindow d)) → IsOverlap (validate_from d cursor ws)
  unfolding validate_from
  validate_from-IsOverlap cursor [] = tt
  validate_from-IsOverlap cursor (w ∷ ws) = elim (Bool-cases (ltb w.offset cursor)) [
    | inl early ↦ rw early tt
    | inr later ↦ elim (Bool-cases (ltb max_duration (w.offset + w.duration))) [
      | inl long ↦ rw (later, long) tt
      | inr fits ↦ rw (later, fits) (validate_from-IsOverlap (w.offset + w.duration) ws)
    ]
  ]

  validate-IsOverlap : (ws : List (ScheduledWindow d)) → IsOverlap (validate_windows d ws)
  unfolding validate_windows
  validate-IsOverlap ws = validate_from-IsOverlap 0 ws

module _ (d : Driver) where
  open d use {
    Radio, RadioProfile, RadioDriverError, profile, is_receiving, stop_receive, switch_profile,
    start_receive,
  }

  -- The radio receives with the profile.
  abbrev pub Receives : RadioProfile → Radio → Type 0
  Receives p r = (profile r ≡ p) × (is_receiving r ≡ true)

  abbrev Attempt : Type 0
  Attempt = Result RadioDriverError (Unit {0}) × Radio

  -- After a success the radio receives with the profile.
  abbrev Armed : RadioProfile → Result RadioDriverError (Unit {0}) × Radio → Type 0
  Armed p (err e, r) = Unit {0}
  Armed p (ok u, r) = Receives p r

  start-Armed :
      (p : RadioProfile) (r : Radio) (x : Result RadioDriverError (Unit {0}) × Radio)
      → start_receive r ≡ x
      → profile r ≡ p
      → Armed p x
  start-Armed p r (err e, r') h same = tt
  start-Armed p r (ok u, r') h same =
      let done : (start_receive r).0 ≡ ok tt = ap (λ (x : Attempt). x.0) h in
      let left : (start_receive r).1 ≡ r' = ap (λ (x : Attempt). x.1) h in
      (
        ap profile (sym left) ∙ d.start_receive_keeps r done ∙ same,
        ap is_receiving (sym left) ∙ d.start_receive_arms r done,
      )

  switch-Armed :
      (p : RadioProfile) (r : Radio) (x : Attempt)
      → switch_profile p r ≡ x
      → Armed p (and_then d x start_receive)
  switch-Armed p r (err e, r') h = tt
  switch-Armed p r (ok u, r') h =
      let done : (switch_profile p r).0 ≡ ok tt = ap (λ (x : Attempt). x.0) h in
      let left : (switch_profile p r).1 ≡ r' = ap (λ (x : Attempt). x.1) h in
      start-Armed p r' (start_receive r') refl
        (ap profile (sym left) ∙ d.switch_profile_sets p r done)

  stop-Armed :
      (p : RadioProfile) (x : Attempt)
      → Armed p (and_then d x (λ r1. and_then d (switch_profile p r1) start_receive))
  stop-Armed p (err e, r) = tt
  stop-Armed p (ok u, r) = switch-Armed p r (switch_profile p r) refl

  -- After a success the radio of the world receives with the profile.
  abbrev Entered : RadioProfile → Result RadioDriverError (Unit {0}) × World d → Type 0
  Entered p (err e, w) = Unit {0}
  Entered p (ok u, w) = Receives p w.device

  noted-Entered :
      (p : RadioProfile) (w : World d) (x : Attempt) → Armed p x → Entered p (noted d p w x)
  noted-Entered p w (err e, r) h = tt
  noted-Entered p w (ok u, r) h = h

  enter-Entered : (p : RadioProfile) (w : World d) → Entered p (enter_profile_rx d p w)
  unfolding enter_profile_rx
  enter-Entered p w =
      noted-Entered p w (change_profile d p w.device) (stop-Armed p (stop_receive w.device))

  module _ (cancel : CancelToken) (base : RadioProfile) where
    -- A schedule that is finished ends in the base profile.
    abbrev Returned : Step d Completed → Type 0
    Returned (none, w) = Unit {0}
    Returned (some (ok finished), w) = Receives base w.device
    Returned (some (ok cancelled), w) = Unit {0}
    Returned (some (err e), w) = Unit {0}

    if_elapsed-Returned :
        (x : Wait × World d) (next : World d → Step d Completed)
        → ((w : World d) → Returned (next w))
        → Returned (if_elapsed d cancel x next)
    if_elapsed-Returned (cancelled_early, w) next h = tt
    if_elapsed-Returned (elapsed, w) next h = elim (Bool-cases (cancel w.looks)) [
      | inl stop ↦ rw stop tt
      | inr go ↦ rw go (h (looked d 1 w))
    ]

    if_instant-Returned :
        (deadline : ℕ) (w : World d) (next : Step d Completed)
        → Returned next
        → Returned (if_instant d cancel deadline w next)
    if_instant-Returned deadline w next h = elim (Bool-cases (ltb w.latest deadline)) [
      | inl late ↦ rw late tt
      | inr early ↦ rw early h
    ]

    if_entered-Returned :
        (p : RadioProfile) (x : Result RadioDriverError (Unit {0}) × World d)
        → (next : World d → Step d Completed) → Entered p x
        → ((w : World d) → Receives p w.device → Returned (next w))
        → Returned (if_entered d cancel x next)
    if_entered-Returned p (err e, w) next h k = tt
    if_entered-Returned p (ok u, w) next h k = k w h

    open_windows-Returned :
        (start : ℕ) (vs : List (ScheduledWindow d)) (w : World d)
        → Receives base w.device
        → Returned (open_windows d cancel base start vs w)
    unfolding open_windows
    open_windows-Returned start [] w h = h
    open_windows-Returned start (v ∷ vs) w h = if_instant-Returned (start + v.offset) w _ (
        if_elapsed-Returned (wait_until d cancel (start + v.offset) w) _ λ w1.
          if_entered-Returned v.window_profile (enter_profile_rx d v.window_profile w1) _
            (enter-Entered v.window_profile w1)
            λ w2 opened. if_instant-Returned (start + v.offset + v.duration) w2 _ (
              if_elapsed-Returned (wait_until d cancel (start + v.offset + v.duration) w2) _ λ w3.
                if_entered-Returned base (enter_profile_rx d base w3) _ (enter-Entered base w3)
                  (open_windows-Returned start vs)))

    run_inner-Returned :
        (vs : List (ScheduledWindow d)) (w : World d) → Returned (run_inner d cancel base vs w)
    unfolding run_inner
    run_inner-Returned vs w =
        if_entered-Returned base (enter_profile_rx d base w) _ (enter-Entered base w)
          λ w1. open_windows-Returned w1.now vs w1

    -- The results after which the radio is where the documentation says.
    abbrev pub IsSettled : Option (Result (SchedulerError d) (Unit {0})) → Type 0
    IsSettled none = ⊥
    IsSettled (some (ok u)) = Unit {0}
    IsSettled (some (err (radio e))) = Unit {0}
    IsSettled (some (err (overlapping_windows offset))) = ⊥
    IsSettled (some (err (recovery_failed original recovery))) = ⊥
    IsSettled (some (err (recovery_failed_cancelled recovery))) = ⊥

    abbrev Rests : Step d (Unit {0}) → Type 0
    Rests x = IsSettled x.0 → Receives base x.1.device

    restored-Rests :
        (original : SchedulerError d) (x : Result RadioDriverError (Unit {0}) × World d)
        → Entered base x
        → Rests (restored d cancel base original x)
    restored-Rests original (ok u, w) h settled = h
    restored-Rests original (err e, w) h settled = elim settled [ ]

    restored_cancelled-Rests :
        (x : Result RadioDriverError (Unit {0}) × World d)
        → Entered base x
        → Rests (restored_cancelled d cancel base x)
    restored_cancelled-Rests (ok u, w) h settled = h
    restored_cancelled-Rests (err e, w) h settled = elim settled [ ]

    restore_base-Entered : (w : World d) → Entered base (restore_base d cancel base w)
    unfolding restore_base
    restore_base-Entered w = enter-Entered base w

    end_run-Rests : (x : Step d Completed) → Returned x → Rests (end_run d cancel base x)
    end_run-Rests (none, w) h = λ settled. elim settled [ ]
    end_run-Rests (some (ok finished), w) h = λ settled. h
    end_run-Rests (some (ok cancelled), w) h =
        restored_cancelled-Rests (restore_base d cancel base w) (restore_base-Entered w)
    end_run-Rests (some (err e), w) h =
        restored-Rests e (restore_base d cancel base w) (restore_base-Entered w)

    if_valid-Rests :
        (x : Option (Result (SchedulerError d) (Unit {0}))) (w : World d) (next : Step d (Unit {0}))
        → IsOverlap d x
        → Rests next
        → Rests (if_valid d cancel base x w next)
    if_valid-Rests none w next overlap h settled = elim settled [ ]
    if_valid-Rests (some (ok u)) w next overlap h settled = h settled
    if_valid-Rests (some (err (radio e))) w next overlap h settled = elim overlap [ ]
    if_valid-Rests (some (err (overlapping_windows o))) w next overlap h settled = elim settled [ ]
    if_valid-Rests (some (err (recovery_failed a b))) w next overlap h settled = elim settled [ ]
    if_valid-Rests (some (err (recovery_failed_cancelled b))) w next overlap h settled =
        elim settled [ ]

    -- Whatever a driver that keeps its promises does, and whenever the token is cancelled: a run that
    -- returns, or fails with an error of the driver, leaves the radio receiving with the base
    -- profile.
    pub run_settled :
        (windows : List (ScheduledWindow d)) (w : World d)
        → IsSettled (run d cancel base windows w).0
        → Receives base (run d cancel base windows w).1.device
    unfolding run
    run_settled windows w =
        if_valid-Rests (validate_windows d windows) w
          (end_run d cancel base (run_inner d cancel base windows w)) (validate-IsOverlap d windows)
          (end_run-Rests (run_inner d cancel base windows w) (run_inner-Returned windows w))
