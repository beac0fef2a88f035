-- ===== src/ButtonThread/Examples.antt =====
-- A button that is pressed twice, and the theorems at it.
use argon_utils.Prelude.{◌≡◌, ◌⊎◌, refl, true, false, none, some, List, [], ◌∷◌, eq_string, arith}
use argon_utils.Button
use argon_utils.Button.{is_press, press, placed, cancelled}
use argon_utils.Power.Logind.{World, world_logind, world-IsLogind, Standing, message_of}
use argon_utils.ButtonThread.{
  Wait, edge, timed_out, up, down, message, recognise, act, pressed, run, start,
}
use argon_utils.ButtonThread.Standing.{foreign_stands}
use argon_utils.ButtonThread.Own.{Called, own_press_cancels}
use argon_utils.ButtonThread.WatchOnly.{only_own_is_called_off}

abbrev standing_of : World → Standing
standing_of w = w.standing

abbrev world_with : Standing → World
world_with s = record { standing = s; readable = true; willing = true; clock = 1000 }

abbrev one_press : List Wait
one_press = timed_out ∷ edge up 5_000_000_000 ∷ edge down 5_020_000_000 ∷ []

abbrev two_presses : List Wait
two_presses =
    edge up 5_000_000_000
    ∷ edge down 5_020_000_000
    ∷ timed_out
    ∷ edge up 9_000_000_000
    ∷ edge down 9_020_000_000
    ∷ []

one_press_places :
    (run world_logind (start (world_with none)) one_press true).power.standing
    ≡ some (60_000_001_000, message)
unfolding run is_press pressed recognise act press placed cancelled
one_press_places = refl

two_presses_cancel :
    (run world_logind (start (world_with none)) two_presses true).power.standing ≡ none
unfolding run is_press pressed recognise act press placed cancelled eq_string
two_presses_cancel = refl

foreign_stands_example :
    (run world_logind
      (start (world_with (some (7, "maintenance"))))
      two_presses
      true).power.standing
    ≡ some (7, "maintenance")
unfolding eq_string
foreign_stands_example =
    foreign_stands world_logind standing_of world-IsLogind
      (start (world_with (some (7, "maintenance")))) two_presses true 7 "maintenance"
      (record { pending = refl; other_message = refl; other_time = λ e. ground arith })

own_press_cancels_example :
    Called world_logind standing_of world-IsLogind
      (some (7, message))
      (pressed world_logind (Button.new true, world_with (some (7, message))) 9 true)
own_press_cancels_example =
    own_press_cancels world_logind standing_of world-IsLogind (Button.new true)
      (world_with (some (7, message))) 9 true 7 refl refl refl refl refl

only_own_is_called_off_example :
    let after =
      (run world_logind (start (world_with (some (7, message)))) one_press false).power.standing in
    (after ≡ some (7, message)) ⊎ ((after ≡ none) × (message_of (some (7, message)) ≡ some message))
only_own_is_called_off_example =
    only_own_is_called_off world_logind standing_of world-IsLogind (world_with (some (7, message)))
      one_press
