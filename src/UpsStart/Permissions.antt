-- ===== src/UpsStart/Permissions.antt =====
-- What the thread is permitted, by the mode of the configuration.
use argon_utils.Prelude.{
  ◌≡◌, ◌≢◌, refl, inl, inr, true, false, some, List, Result, Result-cases, ok, err, String, arith,
}
use argon_utils.Config.{Config, ConfigError, mode, policy}
use argon_utils.Mode.{Mode, full}
use argon_utils.Policy
use argon_utils.Ups.{no_writes}
use argon_utils.UpsStart.{Setup, spawn, is_full, or_default}

not_full : (r : Result Mode ConfigError) → r ≢ ok full → is_full (or_default r) ≡ false
not_full (ok Mode.full) h = absurd (h refl)
not_full (ok Mode.managed) h = refl
not_full (ok Mode.read_only) h = refl
not_full (err x) h = refl

-- In a mode that is not `full` the thread is started, if it is, as a dry run and with no permission to
-- change anything on the UPS.
pub spawn-not_full :
    (c : Config) (active_units : List String) (s : Setup)
    → mode c ≢ ok full
    → spawn c active_units ≡ some s
    → (s.dry_run ≡ true) × (s.writes ≡ no_writes)
unfolding spawn
spawn-not_full c active_units s n e =
    let f = not_full (mode c) n in
    elim (Result-cases (Policy.new (policy c.ups))) [
      | inr (x, g) ↦ (ground arith, ground arith)
      | inl (p, g) ↦ (ground (arith, f), ground (arith, f))
    ]
