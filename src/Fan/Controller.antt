-- ===== src/Fan/Controller.antt =====
-- The controller's hysteresis and floor.
use argon_utils.Prelude.{◌≤◌, ◌<◌, ◌≡◌, refl, true, false, some, List, [], ◌∷◌, arith, ℤ}
use argon_utils.Fan.{
  CurvePoint, FanCurve, FanDuty, FanController, percent_of, is_spinning, min_spinning_duty, add_i32,
  duty_from, duty_for, apply_floor, update, off,
}
use argon_utils.Fan.Sorted.{Rising, ◌<ℤ◌}
use argon_utils.Fan.Curve.{duty_for_mono}

-- Duties are percentages.
abbrev pub IsPercentages : List CurvePoint → Type 0
IsPercentages [] = Unit {0}
IsPercentages (p ∷ ps) = (percent_of p.duty ≤ 100) × IsPercentages ps

duty_from-le :
    (d : FanDuty) (ps : List CurvePoint) (t : ℤ)
    → percent_of d ≤ 100
    → IsPercentages ps
    → percent_of (duty_from d ps t) ≤ 100
unfolding duty_from
duty_from-le d [] t h a = h
duty_from-le d (p ∷ ps) t h a = ground (arith, duty_from-le p.duty ps t)

duty_for-le : (c : FanCurve) (t : ℤ) → IsPercentages c.points → percent_of (duty_for c t) ≤ 100
unfolding duty_for
duty_for-le c t a = duty_from-le off c.points t (omega arith) a

-- Whatever the fan ran at before, the duty applied is never below the curve's for the temperature
-- read: the hysteresis and the floor only ever cool more.
pub update-ge-duty_for :
    (c : FanController) (t : ℤ)
    → IsPercentages c.curve.points
    → percent_of (duty_for c.curve t) ≤ percent_of (update c t).1
unfolding update
update-ge-duty_for c t a = ground (arith, duty_for-le c.curve t a)

-- A controller that may not stop the fan, with a floor at which it turns, keeps it turning at every
-- temperature.
pub update_keeps_spinning :
    (c : FanController) (t : ℤ)
    → c.allow_stop ≡ false
    → min_spinning_duty ≤ c.min_duty
    → is_spinning (update c t).1 ≡ true
unfolding update is_spinning
update_keeps_spinning c t s m = ground arith

apply_floor-apply_floor :
    (c : FanController) (d : FanDuty) → apply_floor c (apply_floor c d) ≡ apply_floor c d
unfolding apply_floor
apply_floor-apply_floor c d = ground arith

-- The fan is slowed only if the curve at the temperature plus the margin is below what it runs at.
slowed-cooled :
    (c : FanController) (d : FanDuty) (t : ℤ)
    → c.current ≡ some d
    → apply_floor c d ≡ d
    → percent_of (update c t).1 < percent_of d
    → percent_of (duty_for c.curve (add_i32 t c.hysteresis_dc)) < percent_of d
unfolding update
slowed-cooled c d t e f h = ground arith

update-current :
    (c : FanController) (t : ℤ)
    → let (c', d) = update c t in
      (c'.current ≡ some d)
      × (apply_floor c' d ≡ d)
      × (c'.curve ≡ c.curve)
      × (c'.hysteresis_dc ≡ c.hysteresis_dc)
unfolding update apply_floor
update-current c t = (refl, ground arith, refl, refl)

-- A fan that was set to the curve's duty at one temperature is slowed at the next reading only if
-- that reading, with the hysteresis margin added, is below the first: no threshold can make it
-- oscillate.
pub no_oscillation :
    (c : FanController) (t u : ℤ)
    → Rising c.curve.points
    → let (c', d) = update c t in
      percent_of d ≡ percent_of (duty_for c.curve t)
      → percent_of (update c' u).1 < percent_of d
      → add_i32 u c.hysteresis_dc <ℤ t
no_oscillation c t u r e h =
    let (held, fixed, same, margin) = update-current c t in
    let (c', d) = update c t in
    let cooled = slowed-cooled c' d u held fixed h in
    ground (arith, cooled, duty_for_mono c.curve t (add_i32 u c.hysteresis_dc) r)
