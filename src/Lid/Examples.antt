-- ===== src/Lid/Examples.antt =====
-- Lids that close and open, and the theorems at them.
use argon_utils.Prelude.{
  ℕ, ◌+◌, ◌≤◌, ◌≡◌, ◌≢◌, eq_string, refl, true, false, none, some, List, [], ◌∷◌, arith,
}
use argon_utils.Lid.{Lid, LidConfig, shutdown, power_off, new, report, tick, on_close, on_open}
use argon_utils.Lid.Environment.{
  Op, reported, restored, untouched, apply_all, step, run, lid_gives_back,
}
use argon_utils.Lid.Shutdown
use argon_utils.Lid.Shutdown.{
  poweroffs, closed_since, early_ticks, power_off_only_when_closed, at_most_one_poweroff,
  closing_powers_off,
}

abbrev saver : LidConfig
saver = record {
  action = "power-save";
  radios_off = true;
  cpu_throttle = true;
  shutdown_delay_s = 1;
}

abbrev stopper : LidConfig
stopper = record {
  action = "shutdown";
  radios_off = false;
  cpu_throttle = false;
  shutdown_delay_s = 5;
}

-- Open at first, then closed at 3 s.
abbrev closing : List Op
closing = reported false 0 ∷ reported true 3_000_000_000 ∷ []

abbrev opened_again : List Op
opened_again = reported false 0 ∷ reported true 3 ∷ reported false 4 ∷ []

powers_off_at_eight : (tick (Shutdown.run (new stopper) closing) 8_000_000_000).1 ≡ power_off ∷ []
unfolding Shutdown.run step new report tick on_close eq_string
powers_off_at_eight = refl

not_quiet : (tick (Shutdown.run (new stopper) closing) 8_000_000_000).1 ≢ []
not_quiet h = ground (arith, powers_off_at_eight)

opened : (run (new saver) untouched opened_again).0.closed ≢ some true
unfolding run step new report on_close on_open
opened h = ground arith

lid_gives_back_example :
    let (lid, env) = run (new saver) untouched closing in
    apply_all env (step lid restored).1 ≡ untouched
lid_gives_back_example = lid_gives_back saver closing restored refl

power_off_only_when_closed_example :
    let lid = Shutdown.run (new stopper) closing in
    (lid.action ≡ shutdown)
    × (lid.closed ≡ some true)
    × ((t : ℕ) × (closed_since none none closing ≡ some t) × (t + lid.delay ≤ 8_000_000_000))
power_off_only_when_closed_example =
    power_off_only_when_closed stopper closing 8_000_000_000 not_quiet

-- A laptop with its lid open, five seconds to the poweroff.
abbrev open_lid : Lid
open_lid = record {
  action = shutdown;
  radios_off = false;
  cpu_throttle = false;
  delay = 5;
  closed = some false;
  saving = none;
  shutdown_at = none;
  powering_off = false;
}
