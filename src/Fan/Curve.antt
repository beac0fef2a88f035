-- ===== src/Fan/Curve.antt =====
-- The duty of a curve at a temperature.
use argon_utils.Prelude.{
  ◌≤◌, ◌≡◌, ◌⊎◌, inl, inr, refl, Bool-cases, List, [], ◌∷◌, arith, ℤ, ◌≤ℤ◌, leb_ℤ,
}
use argon_utils.Fan.{CurvePoint, FanCurve, FanDuty, off, percent_of, duty_from, duty_for}
use argon_utils.Fan.Sorted.{Rising, ◌<ℤ◌}

-- A duty that the curve can go on from.
abbrev Below : FanDuty → List CurvePoint → Type 0
Below d [] = Unit {0}
Below d (p ∷ ps) = percent_of d ≤ percent_of p.duty

Rising-Below : (p : CurvePoint) (ps : List CurvePoint) → Rising (p ∷ ps) → Below p.duty ps
Rising-Below p [] r = tt
Rising-Below p (q ∷ ps) r = r.1

Rising-tail : (p : CurvePoint) (ps : List CurvePoint) → Rising (p ∷ ps) → Rising ps
Rising-tail p [] r = tt
Rising-tail p (q ∷ ps) r = r.2

duty_from-ge :
    (d : FanDuty) (ps : List CurvePoint) (t : ℤ)
    → Rising ps
    → Below d ps
    → percent_of d ≤ percent_of (duty_from d ps t)
unfolding duty_from
duty_from-ge d [] t r b = omega arith
duty_from-ge d (p ∷ ps) t r b =
    ground (arith, duty_from-ge p.duty ps t (Rising-tail p ps r) (Rising-Below p ps r))

duty_from_mono :
    (d : FanDuty) (ps : List CurvePoint) (t u : ℤ)
    → Rising ps
    → Below d ps
    → t ≤ℤ u
    → percent_of (duty_from d ps t) ≤ percent_of (duty_from d ps u)
unfolding duty_from
duty_from_mono d [] t u r b h = omega arith
duty_from_mono d (p ∷ ps) t u r b h = ground (
  arith,
  duty_from_mono p.duty ps t u (Rising-tail p ps r) (Rising-Below p ps r) h,
  duty_from-ge p.duty ps u (Rising-tail p ps r) (Rising-Below p ps r),
)

off-Below : (ps : List CurvePoint) → Below off ps
off-Below [] = tt
off-Below (p ∷ ps) = omega arith

-- On an accepted curve the duty never falls as the temperature rises.
pub duty_for_mono :
    (c : FanCurve) (t u : ℤ)
    → Rising c.points
    → t ≤ℤ u
    → percent_of (duty_for c t) ≤ percent_of (duty_for c u)
unfolding duty_for
duty_for_mono c t u r h = duty_from_mono off c.points t u r (off-Below c.points) h

-- The threshold of a point is inclusive: it covers its own temperature.
abbrev Reached : CurvePoint → ℤ → Type 0
Reached p t = p.decicelsius ≤ℤ t

-- No point that is reached has a higher duty.
abbrev pub NoneAbove : List CurvePoint → ℤ → FanDuty → Type 0
NoneAbove [] t d = Unit {0}
NoneAbove (p ∷ ps) t d = (p.decicelsius ≤ℤ t → percent_of p.duty ≤ percent_of d) × NoneAbove ps t d

-- The duty is that of a point that is reached, or the duty it starts from.
abbrev pub FromReached : FanDuty → List CurvePoint → ℤ → FanDuty → Type 0
FromReached start [] t d = d ≡ start
FromReached start (p ∷ ps) t d = ((p.decicelsius ≤ℤ t) × (d ≡ p.duty)) ⊎ FromReached start ps t d

above :
    (p : CurvePoint) (ps : List CurvePoint) (t : ℤ) (d : FanDuty)
    → t <ℤ p.decicelsius
    → Rising (p ∷ ps)
    → NoneAbove ps t d
above p [] t d h r = tt
above p (q ∷ ps) t d h r = (λ k. absurd (omega arith), above q ps t d (omega arith) r.2)

duty_from-NoneAbove :
    (d : FanDuty) (ps : List CurvePoint) (t : ℤ)
    → Rising ps
    → Below d ps
    → NoneAbove ps t (duty_from d ps t)
unfolding duty_from
duty_from-NoneAbove d [] t r b = tt
duty_from-NoneAbove d (p ∷ ps) t r b = ground (
  arith,
  duty_from-NoneAbove p.duty ps t (Rising-tail p ps r) (Rising-Below p ps r),
  duty_from-ge p.duty ps t (Rising-tail p ps r) (Rising-Below p ps r),
  above p ps t d,
)

weaken :
    (p : CurvePoint) (start : FanDuty) (ps : List CurvePoint) (t : ℤ) (d : FanDuty)
    → p.decicelsius ≤ℤ t
    → FromReached p.duty ps t d
    → ((p.decicelsius ≤ℤ t) × (d ≡ p.duty)) ⊎ FromReached start ps t d
weaken p start [] t d h f = inl (h, f)
weaken p start (q ∷ ps) t d h (inl f) = inr (inl f)
weaken p start (q ∷ ps) t d h (inr f) = elim (weaken p start ps t d h f) [
  | inl e ↦ inl e
  | inr e ↦ inr (inr e)
]

FromReached-start : (d : FanDuty) (ps : List CurvePoint) (t : ℤ) → FromReached d ps t d
FromReached-start d [] t = refl
FromReached-start d (p ∷ ps) t = inr (FromReached-start d ps t)

duty_from-FromReached :
    (d : FanDuty) (ps : List CurvePoint) (t : ℤ) → FromReached d ps t (duty_from d ps t)
unfolding duty_from
duty_from-FromReached d [] t = refl
duty_from-FromReached d (p ∷ ps) t = elim (Bool-cases (leb_ℤ p.decicelsius t)) [
  | inl e ↦
      rw e
        (weaken p d ps t (duty_from p.duty ps t) (ground arith) (duty_from-FromReached p.duty ps t))
  | inr e ↦ rw e (inr (FromReached-start d ps t))
]

-- On an accepted curve the duty at a temperature is the highest of the points whose threshold is at
-- or below it, wherever they stand in the list, and `off` only stands for none.
pub duty_for-highest :
    (c : FanCurve) (t : ℤ)
    → Rising c.points
    → NoneAbove c.points t (duty_for c t) × FromReached off c.points t (duty_for c t)
unfolding duty_for
duty_for-highest c t r = (
  duty_from-NoneAbove off c.points t r (off-Below c.points),
  duty_from-FromReached off c.points t,
)
