-- ===== src/UpsThread/Examples.antt =====
-- Rounds with the simulated UPS, and the theorems at them.
use argon_utils.Prelude.{
  ℕ, ◌≡◌, ◌≢◌, refl, true, false, Bool, none, some, List, [], ◌∷◌, ok, err, String, eq_string, leb,
  arith,
}
use argon_utils.Command.{Command, is_query}
use argon_utils.Config.{default_config, mode, policy}
use argon_utils.I2c.{timeout}
use argon_utils.Mode
use argon_utils.Mode.{full}
use argon_utils.Policy
use argon_utils.Power.Logind.{World, world_logind}
use argon_utils.Service.{contention_among, contains_unit}
use argon_utils.Simulator.{UpsState, default_state, direct, reply}
use argon_utils.Ups.{UpsLink, no_writes}
use argon_utils.UpsRequest.{poweroff_with_wake}
use argon_utils.UpsStart.{Setup, Ports, spawn}
use argon_utils.UpsTime.{UpsTime}
use argon_utils.UpsThread.{Round, run, start}
use argon_utils.UpsThread.Rounds.{IsCounted, missed_in, run-IsCounted}
use argon_utils.UpsThread.Inert.{Kept}
use argon_utils.UpsThread.DryRun.{only_full_mode_acts}
use argon_utils.UpsThread.Sleep.{sleep_unless, Slept, sleep_unless-Slept}

abbrev clock : UpsState → ℕ
clock s = 0

abbrev message : UpsTime → String
message t = "Powering off."

abbrev idle : World
idle = record { standing = none; readable = true; willing = true; clock = 1000 }

abbrev ports : Ports UpsState
ports = record {
  discovered = some "/dev/ttyACM0";
  exists = λ p. true;
  owned = λ p. false;
  open_port = λ p. ok default_state;
}

-- A round with a request for a poweroff and a wake.
abbrev one_round : Round UpsState
one_round = record {
  ports = ports;
  identity = λ p. record { name = p; serial = none; last_seen = 0 };
  uptime = 500_000_000_000;
  now = 1_789_732_800_000_000_000;
  instant = 7;
  synced = true;
  times = record { checked_at = 1_789_732_800; set_at = 1_789_732_801; after = 1_789_732_801 };
  wake_unix = 1_789_732_800;
  writable = true;
  requests = (poweroff_with_wake 1_789_740_000, 1_789_732_800) ∷ [];
}

-- What the default configuration sets up.
abbrev default_setup : Setup
default_setup = record {
  port = none;
  policy = Policy.fresh Policy.default_config;
  interval = 10_000_000_000;
  delay = 120_000_000_000;
  dry_run = true;
  state_file = "/run/argon-utils/ups.state";
  writes = no_writes;
}

default_spawned : spawn default_config [] ≡ some default_setup
unfolding spawn contention_among contains_unit eq_string mode Mode.parse policy Policy.new
    Policy.validate
default_spawned = refl

not_full_mode : mode default_config ≢ ok full
unfolding mode Mode.parse
not_full_mode e = cc

queries_change_nothing :
    (s : UpsState) (cmd : Command) (payload : List ℕ) (deadline : ℕ)
    → is_query cmd ≡ true
    → s ≡ default_state
    → ((direct 0).request s cmd payload deadline).0 ≡ default_state
unfolding direct reply is_query
queries_change_nothing s cmd payload deadline q e = ground arith

only_full_mode_acts_example :
    let t =
      run
        (direct 0)
        clock
        world_logind
        message
        default_setup
        (start default_setup idle none none 0)
        (one_round ∷ one_round ∷ []) in
    (t.coordinator.power ≡ idle) × Kept (λ s. s ≡ default_state) t.monitor
only_full_mode_acts_example =
    only_full_mode_acts (direct 0) clock world_logind message default_config [] default_setup
      (λ s. s ≡ default_state) idle none none 0 (one_round ∷ one_round ∷ []) not_full_mode
      default_spawned queries_change_nothing
      ((λ p w e. ground arith), ((λ p w e. ground arith), tt))

-- A UPS that does not answer.
abbrev mute : UpsLink UpsState
mute = record { request = λ s cmd payload deadline. (s, err timeout) }

abbrev three_rounds : List (Round UpsState)
three_rounds = one_round ∷ one_round ∷ one_round ∷ []

run-IsCounted_example :
    IsCounted
      (run mute clock world_logind message default_setup
        (start default_setup idle none none 0)
        three_rounds).monitor
      (missed_in mute clock world_logind message default_setup
        (start default_setup idle none none 0)
        three_rounds
        0)
run-IsCounted_example =
    run-IsCounted mute clock world_logind message default_setup three_rounds
      (start default_setup idle none none 0) 0 tt

abbrev stop_at_once : ℕ → Bool
stop_at_once i = leb 1 i

one_slice : sleep_unless 10_000_000_000 stop_at_once ≡ some (250_000_000 ∷ [])
unfolding sleep_unless
one_slice = refl

sleep_unless-Slept_example :
    (ds : List ℕ) × (sleep_unless 600_000_000 stop_at_once ≡ some ds)
    × Slept stop_at_once 0 600_000_000 ds
sleep_unless-Slept_example = sleep_unless-Slept 600_000_000 stop_at_once
