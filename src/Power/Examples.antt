-- ===== src/Power/Examples.antt =====
-- The coordinator against a logind, and its theorems there.
use argon_utils.Prelude.{ℕ, ◌+◌, ◌≡◌, ◌≢◌, refl, true, false, none, some, [], ◌∷◌, contains}
use argon_utils.Policy.{Decision, Level, Advice}
use argon_utils.Power.{
  ShutdownCoordinator, kind, advises, recovers, on_decision, same_shutdown, scheduled, new,
  shutdown_message,
}
use argon_utils.Power.Logind.{World, world_logind, world-IsLogind, Standing}
use argon_utils.Power.Standing.{
  Decisions, Ours, run, actions, AllNothing, overridden, operator_is_respected, poweroff_stands,
}
use argon_utils.Power.Foreign.{IsForeign, Outcome, advised_outcome, on_decision-IsForeign}

abbrev minute : ℕ
minute = 60_000_000_000

-- Nothing pending at the time 1000.
abbrev idle : World
idle = record { standing = none; readable = true; willing = true; clock = 1000 }

-- Ours pending, and reads that fail.
abbrev deaf : World
deaf = record {
  standing = some (1000 + minute, shutdown_message);
  readable = false;
  willing = true;
  clock = 2000;
}

abbrev coordinator : World → ShutdownCoordinator World
coordinator w = new w minute false

abbrev placed : ShutdownCoordinator World
placed = record (coordinator deaf) { ours = some (1000 + minute) }

abbrev shut_down : Decision
shut_down = record {
  level = Level.critical;
  changed_from = none;
  advice = Advice.shutdown;
  confirmed_recovery = false;
}

abbrev recovery : Decision
recovery = record {
  level = Level.on_mains;
  changed_from = none;
  advice = Advice.nothing;
  confirmed_recovery = true;
}

abbrev standing_of : World → Standing
standing_of w = w.standing

places : (on_decision world_logind (coordinator idle) shut_down 1000).1 ≡ scheduled (1000 + minute)
unfolding on_decision
places = refl

abbrev rehearsal : ShutdownCoordinator World
rehearsal = new idle minute true

abbrev polls : Decisions
polls = (shut_down, 2000) ∷ (shut_down, 3000) ∷ []

advises-shut_down : kind shut_down ≢ recovers
unfolding kind
advises-shut_down h = cc

-- Its poweroff is cancelled by hand.
abbrev called_off : ShutdownCoordinator World
called_off = record (coordinator idle) { ours = some 7 }

is_advised : kind shut_down ≡ advises
unfolding kind
is_advised = refl

operator_is_respected_example :
    (run world_logind called_off ((shut_down, 1500) ∷ polls) ≡ overridden world_logind called_off)
    × AllNothing (actions world_logind (on_decision world_logind called_off shut_down 1500).0 polls)
operator_is_respected_example =
    operator_is_respected world_logind called_off shut_down 1500 7 none polls refl refl refl
      is_advised refl refl (advises-shut_down, (advises-shut_down, tt))

placed-Ours :
    Ours world_logind standing_of world-IsLogind placed
      (1000 + minute)
      (1000 + minute)
      shutdown_message
unfolding same_shutdown
placed-Ours = record { real = refl; recorded = refl; pending = refl; same = refl }

poweroff_stands_example :
    Ours world_logind standing_of world-IsLogind
      (run world_logind placed polls)
      (1000 + minute)
      (1000 + minute)
      shutdown_message
    × AllNothing (actions world_logind placed polls)
poweroff_stands_example =
    poweroff_stands world_logind standing_of world-IsLogind placed polls (1000 + minute)
      (1000 + minute) shutdown_message placed-Ours (advises-shut_down, (advises-shut_down, tt))

advised_outcome_example :
    let (c', action) = on_decision world_logind (coordinator idle) shut_down 1000 in
    Outcome world_logind standing_of world-IsLogind none c' action
unfolding kind
advised_outcome_example =
    advised_outcome world_logind standing_of world-IsLogind (coordinator idle) shut_down 1000
      (record { real = refl; none_ours = refl; active = refl }) refl

abbrev theirs : World
theirs = record { standing = some (7, "reboot"); readable = true; willing = true; clock = 3 }

theirs-IsForeign : IsForeign world_logind standing_of world-IsLogind (coordinator theirs) 7 "reboot"
unfolding contains
theirs-IsForeign = record { pending = refl; other_message = refl; other_time = λ mine e. cc }

on_decision-IsForeign_example :
    IsForeign world_logind standing_of world-IsLogind
      (on_decision world_logind (coordinator theirs) shut_down 4).0
      7
      "reboot"
on_decision-IsForeign_example =
    on_decision-IsForeign world_logind standing_of world-IsLogind (coordinator theirs) shut_down 4 7
      "reboot" theirs-IsForeign refl
