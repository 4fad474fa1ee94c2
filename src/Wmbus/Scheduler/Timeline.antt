-- ===== src/Wmbus/Scheduler/Timeline.antt =====
-- When a run of src/wmbus/radio/scheduler.rs arms which profile, if nothing fails and nobody cancels.
use mbuscrate.Prelude.{
  ltb, none, some, ℕ, ◌+◌, ◌≤◌, ◌≡◌, refl, sym, subst, ap, ap₂, ◌∙◌, List, [], ◌∷◌, ◌++◌, false,
  Result, ok, err, arith, append_assoc, append-nil, max, All,
}
use mbuscrate.Wmbus.Scheduler.{
  if_instant, Driver, CancelToken, Completed, finished, cancelled, elapsed, ScheduledWindow, World,
  Step, change_profile, noted, enter_profile_rx, wait_until, if_elapsed, if_entered, open_windows,
  run_inner, end_run, run, looked,
}
use mbuscrate.Wmbus.Scheduler.Windows.{IsDisjoint, IsBounded, validate_windows_iff}

module _ (d : Driver) where
  open d use {Radio, RadioProfile, RadioDriverError}

  -- The timetable of the windows: each opens with its profile and closes with the base profile.
  abbrev pub timetable : RadioProfile → ℕ → List (ScheduledWindow d) → List (ℕ × RadioProfile)
  timetable base start [] = []
  timetable base start (v ∷ vs) =
      (start + v.offset, v.window_profile)
      ∷ (start + v.offset + v.duration, base)
      ∷ timetable base start vs

  -- Every window, counted from `start`, ends at an instant that the platform has.
  abbrev pub IsReachable : ℕ → ℕ → List (ScheduledWindow d) → Type 0
  IsReachable start latest vs = All (λ v. start + v.offset + v.duration ≤ latest) vs

  -- No window opens before `now`, and none before an earlier one has closed; all end in range.
  abbrev Ordered : ℕ → ℕ → ℕ → List (ScheduledWindow d) → Type 0
  Ordered start now latest [] = Unit
  Ordered start now latest (v ∷ vs) =
      (now ≤ start + v.offset)
      × (start + v.offset + v.duration ≤ latest)
      × Ordered start (start + v.offset + v.duration) latest vs

  Ordered-disjoint :
      (start now latest : ℕ) (vs : List (ScheduledWindow d))
      → All (λ v. now ≤ start + v.offset) vs
      → IsDisjoint d vs
      → IsReachable start latest vs
      → Ordered start now latest vs
  Ordered-disjoint start now latest [] h k r = tt
  Ordered-disjoint start now latest (v ∷ vs) h (after, k) (ends, r) = (
    h.0,
    ends,
    Ordered-disjoint start (start + v.offset + v.duration) latest vs (closes start v vs after) k r,
  )
    where
      closes :
          (s : ℕ) (u : ScheduledWindow d) (us : List (ScheduledWindow d))
          → All (λ x. u.offset + u.duration ≤ x.offset) us
          → All (λ x. s + u.offset + u.duration ≤ s + x.offset) us
      closes s u [] a = tt
      closes s u (x ∷ us) (first, rest) = (omega arith, closes s u us rest)

  All-start : (start : ℕ) (vs : List (ScheduledWindow d)) → All (λ v. start ≤ start + v.offset) vs
  All-start start [] = tt
  All-start start (v ∷ vs) = (omega arith, All-start start vs)

  module _ (ready : (p : RadioProfile) (r : Radio) → (change_profile d p r).0 ≡ ok tt)
      (cancel : CancelToken) (quiet : (n : ℕ) → cancel n ≡ false) (base : RadioProfile) where
    noted-ok :
        (p : RadioProfile) (w : World d) (x : Result RadioDriverError (Unit {0}) × Radio)
        → x.0 ≡ ok tt
        → noted d p w x ≡ (ok tt, record w { device = x.1; armed = w.armed ++ (w.now, p) ∷ [] })
    noted-ok p w (ok u, r) e = refl
    noted-ok p w (err e', r) e = cc

    abbrev entered : RadioProfile → World d → World d
    entered p w = record w {
      device = (change_profile d p w.device).1;
      armed = w.armed ++ (w.now, p) ∷ [];
    }

    enter-ok : (p : RadioProfile) (w : World d) → enter_profile_rx d p w ≡ (ok tt, entered p w)
    unfolding enter_profile_rx
    enter-ok p w = noted-ok p w (change_profile d p w.device) (ready p w.device)

    abbrev waited : ℕ → World d → World d
    waited deadline w = record w { looks = w.looks + 3; now = max w.now deadline }

    wait-ok :
        (deadline : ℕ) (w : World d) → wait_until d cancel deadline w ≡ (elapsed, waited deadline w)
    unfolding wait_until
    wait-ok deadline w = rw (quiet w.looks, quiet (w.looks + 1), quiet (w.looks + 2)) refl

    if_elapsed-ok :
        (deadline : ℕ) (w : World d) (next : World d → Step d Completed)
        → if_elapsed d cancel (wait_until d cancel deadline w) next
          ≡ next (looked d 1 (waited deadline w))
    if_elapsed-ok deadline w next = rw (wait-ok deadline w, quiet (w.looks + 3)) refl

    if_instant-ok :
        (deadline : ℕ) (w : World d) (next : Step d Completed)
        → deadline ≤ w.latest
        → if_instant d cancel deadline w next ≡ next
    if_instant-ok deadline w next h =
        let early : ltb w.latest deadline ≡ false = ground arith in rw early refl

    if_entered-ok :
        (p : RadioProfile) (w : World d) (next : World d → Step d Completed)
        → if_entered d cancel (enter_profile_rx d p w) next ≡ next (entered p w)
    if_entered-ok p w next = rw (enter-ok p w) refl

    -- A round of the loop: its two waits and its two changes of profile.
    abbrev opened : ℕ → ScheduledWindow d → World d → World d
    opened start v w = entered v.window_profile (looked d 1 (waited (start + v.offset) w))

    abbrev closed : ℕ → ScheduledWindow d → World d → World d
    closed start v w =
        entered base (looked d 1 (waited (start + v.offset + v.duration) (opened start v w)))

    round_lem :
        (start : ℕ) (v : ScheduledWindow d) (vs : List (ScheduledWindow d)) (w : World d)
        → start + v.offset + v.duration ≤ w.latest
        → open_windows d cancel base start (v ∷ vs) w
          ≡ open_windows d cancel base start vs (closed start v w)
    unfolding open_windows
    round_lem start v vs w ends =
        if_instant-ok (start + v.offset) w _ (omega arith)
        ∙ if_elapsed-ok (start + v.offset) w _
        ∙ if_entered-ok v.window_profile (looked d 1 (waited (start + v.offset) w)) _
        ∙ if_instant-ok (start + v.offset + v.duration) (opened start v w) _ ends
        ∙ if_elapsed-ok (start + v.offset + v.duration) (opened start v w) _
        ∙ if_entered-ok base
            (looked d 1 (waited (start + v.offset + v.duration) (opened start v w))) _

    -- A finished schedule, with the entries that it has added to the log.
    abbrev Logged : List (ℕ × RadioProfile) → Step d Completed → Type 0
    Logged log x = (x.0 ≡ some (ok finished)) × (x.1.armed ≡ log)

    open_nil :
        (start : ℕ) (w : World d) → open_windows d cancel base start [] w ≡ (some (ok finished), w)
    unfolding open_windows
    open_nil start w = refl

    log_lem :
        (log more : List (ℕ × RadioProfile)) (p : RadioProfile) (n n' m m' : ℕ)
        → n ≡ n'
        → m ≡ m'
        → ((log ++ (n, p) ∷ []) ++ (m, base) ∷ []) ++ more ≡ log ++ ((n', p) ∷ (m', base) ∷ more)
    log_lem log more p n n' m m' e f =
        append_assoc (log ++ (n, p) ∷ []) ((m, base) ∷ []) more
        ∙ append_assoc log ((n, p) ∷ []) ((m, base) ∷ more)
        ∙ ap₂ (λ (x y : ℕ). log ++ ((x, p) ∷ (y, base) ∷ more)) e f

    open_windows-Logged :
        (start : ℕ) (vs : List (ScheduledWindow d)) (w : World d)
        → Ordered start w.now w.latest vs
        → Logged (w.armed ++ timetable base start vs) (open_windows d cancel base start vs w)
    open_windows-Logged start [] w h =
        subst (Logged (w.armed ++ [])) (sym (open_nil start w)) (refl, sym (append-nil w.armed))
    open_windows-Logged start (v ∷ vs) w (first, ends, rest) =
        let first_at : max w.now (start + v.offset) ≡ start + v.offset = omega arith in
        let last_at : max (max w.now (start + v.offset)) (start + v.offset + v.duration)
            ≡ start + v.offset + v.duration =
          omega arith in
        subst (Logged (w.armed ++ timetable base start (v ∷ vs)))
          (sym (round_lem start v vs w ends))
          (subst
            (λ (log : List (ℕ × RadioProfile)).
              Logged log (open_windows d cancel base start vs (closed start v w)))
            (log_lem w.armed (timetable base start vs) v.window_profile
              (max w.now (start + v.offset)) (start + v.offset)
              (max (max w.now (start + v.offset)) (start + v.offset + v.duration))
              (start + v.offset + v.duration) first_at last_at)
            (open_windows-Logged start vs (closed start v w)
              (subst (λ (n : ℕ). Ordered start n w.latest vs) (sym last_at) rest)))

    run_lem :
        (vs : List (ScheduledWindow d)) (w : World d)
        → IsDisjoint d vs × IsBounded d vs
        → run d cancel base vs w
          ≡ end_run d cancel base (open_windows d cancel base w.now vs (entered base w))
    unfolding run run_inner
    run_lem vs w h = rw ((validate_windows_iff d vs).1 h) (
        ap (end_run d cancel base)
          (if_entered-ok base w (λ w1. open_windows d cancel base w1.now vs w1)))

    end_run-Logged :
        (log : List (ℕ × RadioProfile)) (x : Step d Completed)
        → Logged log x
        → ((end_run d cancel base x).0 ≡ some (ok tt)) × ((end_run d cancel base x).1.armed ≡ log)
    end_run-Logged log (none, w) (done, e) = cc
    end_run-Logged log (some (ok finished), w) (done, e) = (refl, e)
    end_run-Logged log (some (ok cancelled), w) (done, e) = cc
    end_run-Logged log (some (err x), w) (done, e) = cc

    -- With a driver that never fails and no cancellation, a run over disjoint windows, which end in the range
    -- of a Duration and, counted from the start, of an Instant, returns without a panic, and it has armed
    -- the base profile at once, each window's profile at its offset from then, and the base profile again
    -- at the window's end, in this order and nothing else.
    pub run-timetable :
        (vs : List (ScheduledWindow d)) (w : World d)
        → IsDisjoint d vs
        → IsBounded d vs
        → IsReachable w.now w.latest vs
        → ((run d cancel base vs w).0 ≡ some (ok tt))
          × ((run d cancel base vs w).1.armed
              ≡ w.armed ++ ((w.now, base) ∷ timetable base w.now vs))
    run-timetable vs w h bounded reachable =
        let ordered = Ordered-disjoint w.now w.now w.latest vs (All-start w.now vs) h reachable in
        let (returned, log) =
          end_run-Logged _ _ (open_windows-Logged w.now vs (entered base w) ordered) in
        let whole = run_lem vs w (h, bounded) in
        (
          ap (λ (x : Step d (Unit {0})). x.0) whole ∙ returned,
          ap (λ (x : Step d (Unit {0})). x.1.armed) whole
              ∙ log
              ∙ append_assoc w.armed ((w.now, base) ∷ []) (timetable base w.now vs),
        )
