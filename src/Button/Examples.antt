-- ===== src/Button/Examples.antt =====
-- A button that is pressed, and the theorems at it.
use argon_utils.Prelude.{◌≡◌, refl, true, List, [], ◌∷◌}
use argon_utils.Button.{Pending, new, press, placed, cancel, is_press}
use argon_utils.Button.Presses.{Event, pressed, was_placed, run}

-- Pressed at 5 s, and its poweroff placed for 65 s.
abbrev one_press : List Event
one_press = pressed 5_000_000_000 Pending.nothing ∷ was_placed 65_000_000_000 ∷ []

second_press_cancels :
    (press (run (new true) one_press) 9_000_000_000 (Pending.at 65_000_000_000)).1 ≡ cancel
unfolding run press placed
second_press_cancels = refl

a_short_pulse_is_a_press : is_press 20_000_000 ≡ true
unfolding is_press
a_short_pulse_is_a_press = refl
