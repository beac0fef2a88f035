-- ===== src/Ups/Watching.antt =====
-- The watch over the battery, against the history of its readings.
use argon_utils.Prelude.{
  ℕ, suc, ◌≡◌, refl, ap, min, none, some, List, [], ◌∷◌, Result, ok, err, arith,
}
use argon_utils.Battery.{BatteryStatus}
use argon_utils.I2c.{Error}
use argon_utils.Policy
use argon_utils.Policy.{BatteryPolicy, Observation}
use argon_utils.Ups.{Watch, new_watch, observe, max_u32}

-- Readings, the newest first, each with the uptime of its poll.
abbrev pub Readings : Type 0
Readings = List (Result BatteryStatus Error × ℕ)

unfoldable pub watched : Watch → Readings → Watch
watched w [] = w
watched w ((r, uptime) ∷ earlier) = (observe (watched w earlier) r uptime).0

-- Consecutive reads that failed, up to the newest.
abbrev pub failed_run : Readings → ℕ
failed_run [] = 0
failed_run ((ok _, _) ∷ _) = 0
failed_run ((err _, _) ∷ earlier) = suc (failed_run earlier)

-- What the policy sees of a reading: nothing of one that failed.
abbrev pub seen : Result BatteryStatus Error × ℕ → Policy.Poll
seen (ok b, uptime) = (some (record { percent = b.percent; source = b.source }), uptime)
seen (err _, uptime) = (none, uptime)

abbrev pub polls : Readings → List Policy.Poll
polls [] = []
polls (r ∷ earlier) = seen r ∷ polls earlier

-- After any readings the watch counts the failures up to the newest one, as far as a u32 goes, and its
-- policy is the policy after the polls that those readings are.
pub watched_lem :
    (p : BatteryPolicy) (h : Readings)
    → ((watched (new_watch p) h).failures ≡ min (failed_run h) max_u32)
      × ((watched (new_watch p) h).policy ≡ Policy.after p (polls h))
unfolding watched observe Policy.after
watched_lem p [] = (refl, refl)
watched_lem p ((ok b, uptime) ∷ h) =
    (refl, ap (λ q. (Policy.observe q (seen (ok b, uptime)).0 uptime).0) (watched_lem p h).1)
watched_lem p ((err e, uptime) ∷ h) = (
  ground (arith, (watched_lem p h).0),
  ap (λ q. (Policy.observe q none uptime).0) (watched_lem p h).1,
)
