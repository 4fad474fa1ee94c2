-- ===== src/Wmbus/Scheduler.antt =====
-- src/wmbus/radio/scheduler.rs. The driver is any implementation of its two traits; its lock is held for
-- each whole change of profile, so a change is one step. Times are numbers of nanoseconds; the driver takes
-- none. A sum of times that is out of range panics: `none`.
-- What other tasks do to the cancel token is a function of how often it was looked at.
pub mod Base
pub mod Timeline
pub mod Windows
mod Tests
use mbuscrate.Prelude.{
  ◌*◌, ◌^◌, ◌-◌, Option, none, some, ℕ, ◌+◌, ◌≡◌, List, [], ◌∷◌, ◌++◌, Bool, true, false, ltb,
  if◌then◌else◌, Result, ok, err, max,
}

-- What the documentation of the traits `RadioDriver` and `Sx126xExt` promises of a success: a switch
-- sets the profile, and starting to receive keeps it.
pub record Driver : Type 1 where
  pub Radio : Type 0
  pub RadioProfile : Type 0
  pub RadioDriverError : Type 0
  pub profile : Radio → RadioProfile
  pub is_receiving : Radio → Bool
  pub stop_receive : Radio → Result RadioDriverError (Unit {0}) × Radio
  pub switch_profile : RadioProfile → Radio → Result RadioDriverError (Unit {0}) × Radio
  pub start_receive : Radio → Result RadioDriverError (Unit {0}) × Radio
  pub switch_profile_sets :
      (p : RadioProfile) (r : Radio)
      → (switch_profile p r).0 ≡ ok tt
      → profile (switch_profile p r).1 ≡ p
  pub start_receive_arms :
      (r : Radio) → (start_receive r).0 ≡ ok tt → is_receiving (start_receive r).1 ≡ true
  pub start_receive_keeps :
      (r : Radio) → (start_receive r).0 ≡ ok tt → profile (start_receive r).1 ≡ profile r

-- Duration::MAX, which has a word of seconds.
abbrev pub max_duration : ℕ
max_duration = 2 ^ 64 * 10 ^ 9 - 1

pub data Completed : Type 0 where
  finished cancelled : Completed

pub data Wait : Type 0 where
  elapsed cancelled_early : Wait

-- The answers of `is_cancelled`, and of the wake by `notify`, in the order of the questions.
abbrev pub CancelToken : Type 0
CancelToken = ℕ → Bool

module _ (d : Driver) where
  open d use {Radio, RadioProfile, RadioDriverError, stop_receive, switch_profile, start_receive}

  pub record ScheduledWindow : Type 0 where
    pub offset : ℕ
    pub duration : ℕ
    pub window_profile : RadioProfile

  pub data SchedulerError : Type 0 where
    radio : RadioDriverError → SchedulerError
    overlapping_windows : ℕ → SchedulerError
    recovery_failed : SchedulerError → RadioDriverError → SchedulerError
    recovery_failed_cancelled : RadioDriverError → SchedulerError

  -- The radio, the clock, the last `Instant` that the platform has, how often the token was looked at,
  -- and when which profile was armed.
  pub record World : Type 0 where
    pub device : Radio
    pub now : ℕ
    pub latest : ℕ
    pub looks : ℕ
    pub armed : List (ℕ × RadioProfile)

  pub validate_from : ℕ → List ScheduledWindow → Option (Result SchedulerError (Unit {0}))
  validate_from cursor [] = some (ok tt)
  validate_from cursor (w ∷ ws) =
      let rest = validate_from (w.offset + w.duration) ws in
      if ltb w.offset cursor
      then some (err (overlapping_windows w.offset))
      else if ltb max_duration (w.offset + w.duration)
      then none
      else rest

  pub validate_windows : List ScheduledWindow → Option (Result SchedulerError (Unit {0}))
  unfolding validate_from
  validate_windows windows = validate_from 0 windows

  -- What a step that may fail, or panic, returns, and the world it leaves.
  abbrev pub Step : Type 0 → Type 0
  Step A = Option (Result SchedulerError A) × World

  -- `?` after a call of the driver.
  abbrev pub and_then :
      Result RadioDriverError (Unit {0}) × Radio
      → (Radio → Result RadioDriverError (Unit {0}) × Radio)
      → Result RadioDriverError (Unit {0}) × Radio
  and_then (err e, r) next = (err e, r)
  and_then (ok u, r) next = next r

  abbrev pub change_profile : RadioProfile → Radio → Result RadioDriverError (Unit {0}) × Radio
  change_profile p r =
      and_then (stop_receive r) (λ r1. and_then (switch_profile p r1) start_receive)

  abbrev pub noted :
      RadioProfile
      → World
      → Result RadioDriverError (Unit {0}) × Radio
      → Result RadioDriverError (Unit {0}) × World
  noted p w (err e, r) = (err e, record w { device = r })
  noted p w (ok u, r) = (ok u, record w { device = r; armed = w.armed ++ (w.now, p) ∷ [] })

  pub enter_profile_rx : RadioProfile → World → Result RadioDriverError (Unit {0}) × World
  enter_profile_rx p w = noted p w (change_profile p w.device)

  abbrev pub looked : ℕ → World → World
  looked n w = record w { looks = w.looks + n }

  module _ (cancel : CancelToken) where
    -- A look at the flag; the wait, which a wake may end early; and, when the time has come, a look.
    pub wait_until : ℕ → World → Wait × World
    wait_until deadline w =
        if cancel w.looks
        then (cancelled_early, looked 1 w)
        else if cancel (w.looks + 1)
        then (cancelled_early, looked 2 w)
        else (
          if cancel (w.looks + 2) then cancelled_early else elapsed,
          record w { looks = w.looks + 3; now = max w.now deadline },
        )

    abbrev pub if_elapsed : Wait × World → (World → Step Completed) → Step Completed
    if_elapsed (cancelled_early, w) next = (some (ok cancelled), w)
    if_elapsed (elapsed, w) next =
        if cancel w.looks then (some (ok cancelled), looked 1 w) else next (looked 1 w)

    -- The sum of an `Instant` and a `Duration`.
    abbrev pub if_instant : ℕ → World → Step Completed → Step Completed
    if_instant deadline w next = if ltb w.latest deadline then (none, w) else next

    abbrev pub if_entered :
        Result RadioDriverError (Unit {0}) × World → (World → Step Completed) → Step Completed
    if_entered (err e, w) next = (some (err (radio e)), w)
    if_entered (ok u, w) next = next w

    module _ (base : RadioProfile) where
      -- The windows, from the instant `start`.
      pub open_windows : ℕ → List ScheduledWindow → World → Step Completed
      unfolding wait_until enter_profile_rx
      open_windows start [] w = (some (ok finished), w)
      open_windows start (v ∷ vs) w = if_instant (start + v.offset) w (
          if_elapsed (wait_until (start + v.offset) w) λ w1.
            if_entered (enter_profile_rx v.window_profile w1) λ w2.
              if_instant (start + v.offset + v.duration) w2 (
                if_elapsed (wait_until (start + v.offset + v.duration) w2)
                  λ w3. if_entered (enter_profile_rx base w3) (open_windows start vs)))

      pub run_inner : List ScheduledWindow → World → Step Completed
      unfolding open_windows enter_profile_rx
      run_inner windows w =
          if_entered (enter_profile_rx base w) λ w1. open_windows w1.now windows w1

      pub restore_base : World → Result RadioDriverError (Unit {0}) × World
      unfolding enter_profile_rx
      restore_base w = enter_profile_rx base w

      abbrev pub restored :
          SchedulerError → Result RadioDriverError (Unit {0}) × World → Step (Unit {0})
      restored original (ok u, w) = (some (err original), w)
      restored original (err recovery, w) = (some (err (recovery_failed original recovery)), w)

      abbrev pub restored_cancelled : Result RadioDriverError (Unit {0}) × World → Step (Unit {0})
      restored_cancelled (ok u, w) = (some (ok tt), w)
      restored_cancelled (err recovery, w) = (some (err (recovery_failed_cancelled recovery)), w)

      abbrev pub end_run : Step Completed → Step (Unit {0})
      end_run (none, w) = (none, w)
      end_run (some (ok finished), w) = (some (ok tt), w)
      end_run (some (ok cancelled), w) = restored_cancelled (restore_base w)
      end_run (some (err original), w) = restored original (restore_base w)

      abbrev pub if_valid :
          Option (Result SchedulerError (Unit {0})) → World → Step (Unit {0}) → Step (Unit {0})
      if_valid none w next = (none, w)
      if_valid (some (err e)) w next = (some (err e), w)
      if_valid (some (ok u)) w next = next

      pub run : List ScheduledWindow → World → Step (Unit {0})
      unfolding run_inner restore_base validate_windows
      run windows w = if_valid (validate_windows windows) w (end_run (run_inner windows w))
