-- ===== src/UpsThread/Keeps.antt =====
-- Whatever the requests on a link keep, each thing that the thread does with the link keeps.
use argon_utils.Prelude.{
  ℕ, inl, inr, Bool, true, false, Option, none, some, List, Result, Result-cases, ok, err, String,
  ℤ,
}
use argon_utils.ClockSync.{Verdict, judge, in_sync, untrusted, implausible, correct}
use argon_utils.Command.{Command}
use argon_utils.Drift.{Entry}
use argon_utils.Housekeeping.{
  Seen, Times, check_wake, act_on, check_clock, check_and_record_clock, act_on_verdict, set_to,
  read_again,
}
use argon_utils.I2c.{Error}
use argon_utils.Power.{PowerControl}
use argon_utils.Ups
use argon_utils.Ups.{UpsLink, UpsMonitor}
use argon_utils.Ups.Gated.{
  call-keeps, get_battery, get_clock, get_schedule, put_clock, put_schedule,
}
use argon_utils.UpsRequest.{
  Request, poweroff_with_wake, handle_request, begin, confirm, power_off, announce, park, read_wake,
  set_wake,
}
use argon_utils.UpsTime.{UpsTime, from_unix_seconds}
use argon_utils.Wake.{Assessment, RequestError, assess, schedule_for, park_at}

module _ {W : Type 0} (link : UpsLink W) (clock : W → ℕ) (K : W → Type 0)
    (keeps : (w : W) (cmd : Command) (payload : List ℕ) (deadline : ℕ)
      → K w
      → K (link.request w cmd payload deadline).0) where
  read_wake-keeps : (w : W) → K w → K (read_wake link clock w).0
  read_wake-keeps w k = call-keeps link K keeps w get_schedule (clock w) k

  set_wake-keeps : (w : W) (t : UpsTime) → K w → K (set_wake link clock w t).0
  set_wake-keeps w t k = call-keeps link K keeps w (put_schedule t) (clock w) k

  park-keeps : (w : W) → K w → K (park link clock w).0
  unfolding park
  park-keeps w k = set_wake-keeps w park_at k

  pub poll-keeps :
      (m : UpsMonitor W) (uptime now : ℕ) → K m.ups → K (Ups.poll link m uptime now).0.ups
  unfolding Ups.poll
  poll-keeps m uptime now k = call-keeps link K keeps m.ups get_battery now k

  act_on-keeps :
      (w : W) (found : Option UpsTime) (a : Assessment) (allowed : Bool) (logged : Seen)
      → K w
      → K (act_on link clock w found a allowed logged).0
  act_on-keeps w found Assessment.nothing allowed logged k = k
  act_on-keeps w found (Assessment.leave t) allowed logged k = k
  act_on-keeps w found (Assessment.park t why) true logged k = park-keeps w k
  act_on-keeps w found (Assessment.park t why) false logged k = k

  pub check_wake-keeps :
      (w : W) (allowed : Bool) (now_unix : ℕ) (logged : Seen)
      → K w
      → K (check_wake link clock w allowed now_unix logged).0
  unfolding check_wake
  check_wake-keeps w allowed now_unix logged k = elim (Result-cases (read_wake link clock w).1) [
    | inl (found, e) ↦
        rw e (act_on-keeps _ found (assess found now_unix) allowed logged (read_wake-keeps w k))
    | inr (x, e) ↦ rw e (read_wake-keeps w k)
  ]

  read_again-keeps :
      (w : W) (r : Result (Unit {0}) Error) (times : Times) (offset_s : ℤ)
      → K w
      → K (read_again link clock w r times offset_s).0
  read_again-keeps w (ok u) times offset_s k = call-keeps link K keeps w get_clock (clock w) k
  read_again-keeps w (err x) times offset_s k = k

  set_to-keeps :
      (w : W) (now : Option UpsTime) (times : Times) (offset_s : ℤ)
      → K w
      → K (set_to link clock w now times offset_s).0
  set_to-keeps w none times offset_s k = k
  set_to-keeps w (some t) times offset_s k =
      read_again-keeps _ (Ups.set_clock link w t (clock w)).1 times offset_s
        (call-keeps link K keeps w (put_clock t) (clock w) k)

  verdict-keeps :
      (w : W) (v : Verdict) (allowed : Bool) (times : Times)
      → K w
      → K (act_on_verdict link clock w v allowed times).0
  verdict-keeps w (in_sync o) allowed times k = k
  verdict-keeps w (untrusted o) allowed times k = k
  verdict-keeps w implausible allowed times k = k
  verdict-keeps w (correct o) true times k =
      set_to-keeps w (from_unix_seconds times.set_at) times o k
  verdict-keeps w (correct o) false times k = k

  pub check_clock-keeps :
      (w : W) (allowed synced : Bool) (lines : Option (List Entry)) (times : Times)
      → K w
      → K (check_and_record_clock link clock w allowed lines synced times).0
  unfolding check_and_record_clock check_clock
  check_clock-keeps w allowed synced lines times k =
      let read : K (Ups.clock link w (clock w)).0 =
        call-keeps link K keeps w get_clock (clock w) k in
      elim (Result-cases (Ups.clock link w (clock w)).1) [
        | inl (t, e) ↦ rw e (verdict-keeps _ (judge t times.checked_at synced) allowed times read)
        | inr (x, e) ↦ rw e read
      ]

  module _ {P : Type 0} (power : PowerControl P) (message : UpsTime → String) where
    announce-keeps :
        (w : W) (p : P) (t : UpsTime) (r : Result ℕ String)
        → K w
        → K (announce link clock power message w p t r).0
    announce-keeps w p t (ok at) k = k
    announce-keeps w p t (err x) k = park-keeps w k

    power_off-keeps :
        (w : W) (p : P) (t : UpsTime) (b : Bool)
        → K w
        → K (power_off link clock power message w p t b).0
    power_off-keeps w p t true k = announce-keeps w _ t _ k
    power_off-keeps w p t false k = park-keeps w k

    confirm-keeps :
        (w : W) (p : P) (t : UpsTime) (r : Result (Unit {0}) Error)
        → K w
        → K (confirm link clock power message w p t r).0
    confirm-keeps w p t (ok u) k = power_off-keeps _ p t _ (read_wake-keeps w k)
    confirm-keeps w p t (err x) k = k

    begin-keeps :
        (w : W) (p : P) (r : Result UpsTime RequestError)
        → K w
        → K (begin link clock power message w p r).0
    begin-keeps w p (ok t) k = confirm-keeps _ p t _ (set_wake-keeps w t k)
    begin-keeps w p (err x) k = k

    pub handle_request-keeps :
        (w : W) (p : P) (req : Request) (wake_writes : Bool) (now : ℕ)
        → K w
        → K (handle_request link clock power message w p req wake_writes now).0
    unfolding handle_request
    handle_request-keeps w p (poweroff_with_wake at) true now k =
        begin-keeps w p (schedule_for at now) k
    handle_request-keeps w p (poweroff_with_wake at) false now k = k
