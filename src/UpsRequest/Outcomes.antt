-- ===== src/UpsRequest/Outcomes.antt =====
-- How a request ends.
use argon_utils.Prelude.{
  ℕ, ◌*◌, ◌/◌, ◌≡◌, ◌∙◌, ◌⊎◌, inl, inr, refl, ap, Bool, true, false, Option-cases, some, List,
  Result, Result-cases, ok, err, String, arith,
}
use argon_utils.I2c.{Error}
use argon_utils.Power.{PowerControl, same_shutdown}
use argon_utils.Power.Logind.{IsLogind, Standing}
use argon_utils.Ups.{UpsLink}
use argon_utils.UpsTime.{UpsTime, to_unix_seconds, decode_optional_schedule}
use argon_utils.Wake.{schedule_for, park_at, poweroff_delay}
use argon_utils.Wake.Requests.{schedule_for-Accepted}
use argon_utils.UpsRequest.{
  Response, handle_request, poweroff_with_wake, poweroff_scheduled, error, second, park, set_wake,
  read_wake, power_off, begin, reads_back, announce, or_zero,
}
use argon_utils.UpsRequest.Schedule.{
  KeepsSchedule, Holds, same_minute-eq, decoded-no_second, read_wake-keeps, read_wake-true,
  park-Holds,
}

module _ {W P : Type 0} (link : UpsLink W) (instant : W → ℕ) (held : W → List ℕ)
    (keeps : KeepsSchedule link held) (power : PowerControl P) (standing : P → Standing)
    (laws : IsLogind power standing) (message : UpsTime → String) where
  -- The ends of a request for a wake at `at`, made at `now`: the state `w` of the link and what was
  -- pending before, the states after, and the answer.
  pub data Ended (at now : ℕ) (w : W) (before : Standing) (w' : W) (p' : P) (r : Response)
      : Type 0 where
    scheduled :
        (t : UpsTime) (wake_unix placed pending : ℕ)
        → schedule_for at now ≡ ok t
        → to_unix_seconds t ≡ some wake_unix
        → Holds link instant held keeps w' t
        → standing p' ≡ some (pending, message t)
        → same_shutdown placed pending ≡ true
        → r ≡ poweroff_scheduled wake_unix (placed / second)
        → Ended at now w before w' p' r
    untouched :
        (m : String) → r ≡ error m → standing p' ≡ before → w' ≡ w → Ended at now w before w' p' r
    parked :
        (m : String)
        → r ≡ error m
        → standing p' ≡ before
        → Holds link instant held keeps w' park_at
        → Ended at now w before w' p' r
    unanswered :
        (m : String) (v : W) (t : UpsTime) (x : Error)
        → r ≡ error m
        → standing p' ≡ before
        → (t ≡ park_at) ⊎ (schedule_for at now ≡ ok t)
        → (set_wake link instant v t).1 ≡ err x
        → w' ≡ (set_wake link instant v t).0
        → Ended at now w before w' p' r

  parks :
      (at now : ℕ) (w v : W) (before : Standing) (p' : P) (m : String)
      → standing p' ≡ before
      → Ended at now w before (park link instant v).0 p' (error m)
  unfolding park
  parks at now w v before p' m s = elim (Result-cases (set_wake link instant v park_at).1) [
    | inl (tt, e) ↦ parked m refl s (park-Holds link instant held keeps v e)
    | inr (x, e) ↦ unanswered m v park_at x refl s (inl refl) e refl
  ]

  announce-Ended :
      (at now : ℕ) (w v : W) (before : Standing) (p' : P) (t : UpsTime) (answer : Result ℕ String)
      → schedule_for at now ≡ ok t
      → Holds link instant held keeps v t
      → ((placed : ℕ)
          → answer ≡ ok placed
          → (pending : ℕ) × (standing p' ≡ some (pending, message t))
            × (same_shutdown placed pending ≡ true))
      → ((x : String) → answer ≡ err x → standing p' ≡ before)
      → let (w', p'', r) = announce link instant power message v p' t answer in
        Ended at now w before w' p'' r
  announce-Ended at now w v before p' t (err x) s h good bad =
      parks at now w v before p' _ (bad x refl)
  announce-Ended at now w v before p' t (ok placed) s h good bad =
      let a = schedule_for-Accepted at now t s in
      let (pending, stands, near) = good placed refl in
      scheduled t a.time placed pending s a.readable h stands near
        (ap (λ o. poweroff_scheduled (or_zero o) (placed / second)) a.readable)

  power_off-Ended :
      (at now : ℕ) (w v : W) (p : P) (t : UpsTime) (b : Bool)
      → schedule_for at now ≡ ok t
      → (b ≡ true → Holds link instant held keeps v t)
      → let (w', p', r) = power_off link instant power message v p t b in
        Ended at now w (standing p) w' p' r
  power_off-Ended at now w v p t false s h = parks at now w v (standing p) p _ refl
  power_off-Ended at now w v p t true s h =
      announce-Ended at now w v (standing p) _ t _ s (h refl)
        (laws.schedule_ok p (poweroff_delay * second) (message t))
        (laws.schedule_err p (poweroff_delay * second) (message t))

  -- A schedule that reads back as the same minute is the one that was asked for.
  reads_back-Holds :
      (at now : ℕ) (w : W) (t : UpsTime)
      → schedule_for at now ≡ ok t
      → reads_back t (read_wake link instant w).1 ≡ true
      → Holds link instant held keeps (read_wake link instant w).0 t
  reads_back-Holds at now w t s b = elim (Result-cases (read_wake link instant w).1) [
    | inr (x, e) ↦ ground arith
    | inl (r, e) ↦ elim (Option-cases r) [
      | inl n ↦ ground arith
      | inr (got, g) ↦
          let a = schedule_for-Accepted at now t s in
          let found = read_wake-true link instant held keeps w (some got) (e ∙ ap ok g) in
          let same =
            same_minute-eq got t (ground arith) (decoded-no_second (held w) got found)
              a.no_second in
          ap decode_optional_schedule (read_wake-keeps link instant held keeps w)
          ∙ found
          ∙ ap (λ u. ok (some u)) same
    ]
  ]

  begin-Ended :
      (at now : ℕ) (w : W) (p : P)
      → let (w', p', r) = begin link instant power message w p (schedule_for at now) in
        Ended at now w (standing p) w' p' r
  begin-Ended at now w p = elim (Result-cases (schedule_for at now)) [
    | inr (x, e) ↦ rw e (untouched _ refl refl refl)
    | inl (t, e) ↦ rw e (elim (Result-cases (set_wake link instant w t).1) [
      | inr (x, f) ↦ rw f (unanswered _ w t x refl refl (inr e) f refl)
      | inl (u, f) ↦ rw f (
          power_off-Ended at now w _ p t _ e
            (reads_back-Holds at now (set_wake link instant w t).0 t e))
    ])
  ]

  -- How a request for a wake ends, on a UPS that keeps its schedule and with a logind that keeps its
  -- laws. It reports a poweroff only with the schedule that was asked for held by the UPS, and a
  -- poweroff pending within the tolerance of the time it reports. Otherwise it reports an error and
  -- whatever was pending is as before, and either nothing was sent to the UPS, or the schedule is
  -- parked, or the last thing it did was a setting, of the wake or of the parking, that failed.
  pub request_outcome :
      (at now : ℕ) (w : W) (p : P) (wake_writes : Bool)
      → let (w', p', r) =
          handle_request link instant power message w p (poweroff_with_wake at) wake_writes now in
        Ended at now w (standing p) w' p' r
  unfolding handle_request
  request_outcome at now w p true = begin-Ended at now w p
  request_outcome at now w p false = untouched _ refl refl refl
