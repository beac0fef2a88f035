-- ===== src/Fan.antt =====
-- Fan duties and the temperature curve with its hysteresis (crates/argon-proto/src/fan/mod.rs and
-- curve.rs). An i32 is an integer, wrapped to 32 bits where it is computed; a u8 is a number below
-- 256.
pub mod Sorted
pub mod Curve
pub mod Controller
mod Examples
use argon_utils.Prelude.{
  ℕ, ◌+◌, ◌*◌, ◌/◌, ◌%◌, ◌&&◌, min, max, Bool, true, false, Option, none, some, List, [], ◌∷◌,
  Result, ok, err, ltb, leb, ◌==◌, if◌then◌else◌, ℤ, pos, negsuc, pos_part, neg_part, sub_ℕ, leb_ℤ,
}

pub data FanDuty : Type 0 where
  off : FanDuty
  percent : ℕ → FanDuty

pub data InvalidDuty : Type 0 where
  invalid_duty : ℕ → InvalidDuty

abbrev pub min_spinning_duty : ℕ
min_spinning_duty = 10

-- `FanDuty::new`.
unfoldable pub new_duty : ℕ → Result FanDuty InvalidDuty
new_duty p = if p == 0 then ok off else if leb p 100 then ok (percent p) else err (invalid_duty p)

unfoldable pub clamped : ℕ → FanDuty
clamped p =
    if p == 0
    then off
    else if ltb p min_spinning_duty
    then percent min_spinning_duty
    else if leb p 100
    then percent p
    else percent 100

unfoldable pub as_mcu_byte : FanDuty → ℕ
as_mcu_byte off = 0
as_mcu_byte (percent p) = p

-- `FanDuty::percent`.
abbrev pub percent_of : FanDuty → ℕ
percent_of off = 0
percent_of (percent p) = p

unfoldable pub is_spinning : FanDuty → Bool
is_spinning off = false
is_spinning (percent p) = leb min_spinning_duty p

-- The i32 that the sum, or ten times the number, wraps to.
abbrev pub two_31 : ℕ
two_31 = 2147483648

abbrev pub two_32 : ℕ
two_32 = 4294967296

unfoldable pub wrap_i32 : ℤ → ℤ
wrap_i32 (pos n) = if ltb (n % two_32) two_31 then pos (n % two_32) else sub_ℕ (n % two_32) two_32
wrap_i32 (negsuc n) =
    if ltb (n % two_32) two_31 then negsuc (n % two_32) else sub_ℕ two_32 (n % two_32 + 1)

unfoldable pub add_i32 : ℤ → ℤ → ℤ
unfolding wrap_i32
add_i32 a b = wrap_i32 (sub_ℕ (pos_part a + pos_part b) (neg_part a + neg_part b))

unfoldable pub times_ten : ℤ → ℤ
unfolding wrap_i32
times_ten a = wrap_i32 (sub_ℕ (pos_part a * 10) (neg_part a * 10))

pub record CurvePoint : Type 0 where
  pub decicelsius : ℤ
  pub duty : FanDuty

unfoldable pub from_celsius : ℤ → FanDuty → CurvePoint
from_celsius temp_c duty = record { decicelsius = times_ten temp_c; duty = duty }

-- Division by ten, which rounds towards zero.
unfoldable pub celsius : CurvePoint → ℤ
celsius p = sub_ℕ (pos_part p.decicelsius / 10) (neg_part p.decicelsius / 10)

pub data CurveError : Type 0 where
  empty : CurveError
  duplicate_threshold : ℤ → CurveError
  not_monotonic : ℤ → ℕ → ℤ → ℕ → CurveError

-- `sort_by_key`, which is stable.
unfoldable pub insert : CurvePoint → List CurvePoint → List CurvePoint
insert p [] = p ∷ []
insert p (q ∷ points) =
    if leb_ℤ p.decicelsius q.decicelsius then p ∷ q ∷ points else q ∷ insert p points

unfoldable pub sort : List CurvePoint → List CurvePoint
sort [] = []
sort (p ∷ points) = insert p (sort points)

-- The checks of one window, by the first test that fails.
unfoldable pub check_pair : CurvePoint → CurvePoint → Option CurveError
check_pair a b =
    if leb_ℤ b.decicelsius a.decicelsius && leb_ℤ a.decicelsius b.decicelsius
    then some (duplicate_threshold (celsius a))
    else if ltb (percent_of b.duty) (percent_of a.duty)
    then some (not_monotonic (celsius a) (percent_of a.duty) (celsius b) (percent_of b.duty))
    else none

-- The loop over `windows(2)`.
unfoldable pub check_windows : List CurvePoint → Option CurveError
check_windows [] = none
check_windows (a ∷ []) = none
check_windows (a ∷ b ∷ points) =
    let rest = check_windows (b ∷ points) in elim (check_pair a b) [ some e ↦ some e | none ↦ rest ]

pub record FanCurve : Type 0 where
  pub points : List CurvePoint

abbrev pub checked : List CurvePoint → Option CurveError → Result FanCurve CurveError
checked points none = ok (record { points = points })
checked points (some e) = err e

-- `FanCurve::new`.
unfoldable pub new_curve : List CurvePoint → Result FanCurve CurveError
new_curve [] = err empty
new_curve (p ∷ points) = checked (sort (p ∷ points)) (check_windows (sort (p ∷ points)))

-- The loop of `duty_for`, with the duty so far.
unfoldable pub duty_from : FanDuty → List CurvePoint → ℤ → FanDuty
duty_from duty [] t = duty
duty_from duty (p ∷ points) t =
    let next = duty_from p.duty points t in if leb_ℤ p.decicelsius t then next else duty

unfoldable pub duty_for : FanCurve → ℤ → FanDuty
duty_for curve t = duty_from off curve.points t

unfoldable pub lowest_threshold : FanCurve → Option ℤ
lowest_threshold curve = elim curve.points [ [] ↦ none | p ∷ _ ↦ some p.decicelsius ]

pub record FanController : Type 0 where
  pub curve : FanCurve
  pub hysteresis_dc : ℤ
  pub min_duty : ℕ
  pub allow_stop : Bool
  pub current : Option FanDuty

unfoldable pub new_controller : FanCurve → ℤ → ℕ → Bool → FanController
new_controller curve hysteresis_c min_duty allow_stop = record {
  curve = curve;
  hysteresis_dc = times_ten hysteresis_c;
  min_duty = min_duty;
  allow_stop = allow_stop;
  current = none;
}

-- `u8::clamp(lo, hi)`.
abbrev pub clamp : ℕ → ℕ → ℕ → ℕ
clamp n lo hi = min (max n lo) hi

unfoldable pub apply_floor : FanController → FanDuty → FanDuty
apply_floor c off = if c.allow_stop then off else percent (clamp c.min_duty min_spinning_duty 100)
apply_floor c (percent p) = percent (min (max p c.min_duty) 100)

-- The duty that the match of `update` picks, before the floor.
unfoldable pub choose : FanController → Option FanDuty → ℤ → FanDuty
choose c none t = duty_for c.curve t
choose c (some current) t =
    let target = duty_for c.curve t in
    let cooled = duty_for c.curve (add_i32 t c.hysteresis_dc) in
    if leb (percent_of current) (percent_of target)
    then target
    else if ltb (percent_of cooled) (percent_of current)
    then target
    else current

unfoldable pub update : FanController → ℤ → FanController × FanDuty
unfolding choose apply_floor
update c t =
    let applied = apply_floor c (choose c c.current t) in
    (record c { current = some applied }, applied)

unfoldable pub reset : FanController → FanController
reset c = record c { current = none }
