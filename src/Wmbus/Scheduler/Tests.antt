-- ===== src/Wmbus/Scheduler/Tests.antt =====
-- A driver that fails on one profile, and runs of the scheduler over it.
use mbuscrate.Prelude.{
  some, none, ◌^◌, ◌*◌, ◌-◌, ℕ, ◌≡◌, refl, List, [], ◌∷◌, Bool, true, false, if◌then◌else◌, Result,
  ok, err, ◌==◌, arith, Bool-cases, inl, inr,
}
use mbuscrate.Wmbus.Scheduler.{
  Driver, CancelToken, ScheduledWindow, World, validate_windows, run, run_inner, open_windows,
  wait_until, enter_profile_rx, restore_base, validate_from,
}
use mbuscrate.Wmbus.Scheduler.Base.{Receives, run_settled}
use mbuscrate.Wmbus.Scheduler.Windows.{IsDisjoint}
use mbuscrate.Wmbus.Scheduler.Timeline.{timetable, run-timetable}

abbrev Tuned : Type 0
Tuned = ℕ × Bool

-- It cannot be switched to the profile `broken`.
abbrev tune : ℕ → ℕ → Tuned → Result ℕ (Unit {0}) × Tuned
tune broken p (q, on) = if p == broken then (err 7, (q, on)) else (ok tt, (p, false))

tune_sets : (broken p : ℕ) (r : Tuned) → (tune broken p r).0 ≡ ok tt → (tune broken p r).1.0 ≡ p
tune_sets broken p (q, on) h = elim (Bool-cases (p == broken)) [
  | inl bad ↦ cc (rw bad at h)
  | inr good ↦ rw good refl
]

abbrev tuner : ℕ → Driver
tuner broken = record {
  Radio = Tuned;
  RadioProfile = ℕ;
  RadioDriverError = ℕ;
  profile = λ r. r.0;
  is_receiving = λ r. r.1;
  stop_receive = λ r. (ok tt, (r.0, false));
  switch_profile = tune broken;
  start_receive = λ r. (ok tt, (r.0, true));
  switch_profile_sets = tune_sets broken;
  start_receive_arms = λ r h. refl;
  start_receive_keeps = λ r h. refl;
}

abbrev boot : (broken : ℕ) → World (tuner broken)
boot broken = record { device = (0, false); now = 1000; latest = 2 ^ 63; looks = 0; armed = [] }

abbrev slots : (broken : ℕ) → List (ScheduledWindow (tuner broken))
slots broken =
    (record { offset = 10; duration = 5; window_profile = 2 })
    ∷ (record { offset = 15; duration = 5; window_profile = 3 })
    ∷ []

abbrev never : CancelToken
never n = false

slots-IsDisjoint : (broken : ℕ) → IsDisjoint (tuner broken) (slots broken)
slots-IsDisjoint broken = ((omega arith, tt), (tt, tt))

-- The second window's profile cannot be set: the run fails with the driver's error.
run_settled_example : Receives (tuner 3) 1 (run (tuner 3) never 1 (slots 3) (boot 3)).1.device
unfolding run run_inner open_windows wait_until enter_profile_rx restore_base validate_windows
    validate_from
run_settled_example = run_settled (tuner 3) never 1 (slots 3) (boot 3) tt

-- A driver that never fails.
abbrev steady : Driver
steady = record {
  Radio = Tuned;
  RadioProfile = ℕ;
  RadioDriverError = ℕ;
  profile = λ r. r.0;
  is_receiving = λ r. r.1;
  stop_receive = λ r. (ok tt, (r.0, false));
  switch_profile = λ p r. (ok tt, (p, false));
  start_receive = λ r. (ok tt, (r.0, true));
  switch_profile_sets = λ p r h. refl;
  start_receive_arms = λ r h. refl;
  start_receive_keeps = λ r h. refl;
}

abbrev plan : List (ScheduledWindow steady)
plan =
    (record { offset = 10; duration = 5; window_profile = 2 })
    ∷ (record { offset = 15; duration = 5; window_profile = 3 })
    ∷ []

abbrev awake : World steady
awake = record { device = (0, false); now = 1000; latest = 2 ^ 63; looks = 0; armed = [] }

run-timetable_example :
    ((run steady never 1 plan awake).0 ≡ some (ok tt))
    × ((run steady never 1 plan awake).1.armed ≡ (1000, 1) ∷ timetable steady 1 1000 plan)
run-timetable_example =
    run-timetable steady (λ p r. refl) never (λ n. refl) 1 plan awake ((omega arith, tt), (tt, tt))
      (omega arith, (omega arith, tt)) (omega arith, (omega arith, tt))

timetable_times : timetable steady 1 1000 plan ≡ (1010, 2) ∷ (1015, 1) ∷ (1015, 3) ∷ (1020, 1) ∷ []
timetable_times = refl

-- A window that lasts for ever: it passes the validation, and its end is no Instant, so that the run panics
-- with the window's profile armed.
abbrev endless : List (ScheduledWindow steady)
endless = (record { offset = 0; duration = 2 ^ 64 * 10 ^ 9 - 1; window_profile = 2 }) ∷ []

run-endless :
    ((run steady never 1 endless awake).0 ≡ none)
    × ((run steady never 1 endless awake).1.armed ≡ (1000, 1) ∷ (1000, 2) ∷ [])
unfolding run run_inner open_windows wait_until enter_profile_rx restore_base validate_windows
    validate_from
run-endless = (refl, refl)
