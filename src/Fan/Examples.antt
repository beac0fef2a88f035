-- ===== src/Fan/Examples.antt =====
-- The stock curve, and the theorems on it.
use argon_utils.Prelude.{ℕ, ◌≡◌, refl, false, none, [], ◌∷◌, ok, arith, pos}
use argon_utils.Fan.{
  CurvePoint, FanCurve, FanController, percent, new_curve, insert, sort, check_windows, check_pair,
  duty_for, duty_from, from_celsius, times_ten, update, add_i32,
}
use argon_utils.Fan.Sorted.{Rising, ◌<ℤ◌}
use argon_utils.Fan.Controller.{no_oscillation}

abbrev at : ℕ → ℕ → CurvePoint
at dc duty = record { decicelsius = pos dc; duty = percent duty }

abbrev stock : FanCurve
stock = record { points = at 550 30 ∷ at 600 55 ∷ at 650 100 ∷ [] }

from_celsius_stock : from_celsius (pos 55) (percent 30) ≡ at 550 30
unfolding from_celsius times_ten
from_celsius_stock = refl

shuffled : new_curve (at 650 100 ∷ at 550 30 ∷ at 600 55 ∷ []) ≡ ok stock
unfolding new_curve sort insert check_windows check_pair
shuffled = refl

stock-Rising : Rising stock.points
stock-Rising = omega arith

abbrev controller : FanController
controller = record {
  curve = stock;
  hysteresis_dc = pos 30;
  min_duty = 10;
  allow_stop = false;
  current = none;
}

-- At 65 °C, then at 61.9 °C.
no_oscillation_example : add_i32 (pos 619) (pos 30) <ℤ pos 650
unfolding update duty_for duty_from add_i32
no_oscillation_example =
    no_oscillation controller (pos 650) (pos 619) stock-Rising refl (omega arith)
