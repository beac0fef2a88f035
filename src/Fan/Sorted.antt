-- ===== src/Fan/Sorted.antt =====
-- An accepted curve is the input in order of temperature, each step hotter and no slower.
use mathlib.Core.List.{Perm}
use mathlib.Core.List.Perm
use argon_utils.Prelude.{
  ◌+◌, ◌≤◌, ◌<◌, ◌≡◌, inl, inr, refl, subst, Option-cases, none, List, [], ◌∷◌, ok, arith, ℤ,
  pos_part, neg_part, ◌≤ℤ◌, leb_ℤ, if◌then◌else◌, true, false,
}
use argon_utils.Fan.{
  CurvePoint, FanCurve, percent_of, insert, sort, check_pair, check_windows, checked, new_curve,
}

infix 50 ◌<ℤ◌
abbrev pub ◌<ℤ◌ : ℤ → ℤ → Type 0
a <ℤ b = pos_part a + neg_part b < pos_part b + neg_part a

abbrev Ordered : List CurvePoint → Type 0
Ordered [] = Unit {0}
Ordered (p ∷ []) = Unit {0}
Ordered (p ∷ q ∷ points) = (p.decicelsius ≤ℤ q.decicelsius) × Ordered (q ∷ points)

-- Strictly hotter, and at least as fast, from each point to the next.
abbrev pub Rising : List CurvePoint → Type 0
Rising [] = Unit {0}
Rising (p ∷ []) = Unit {0}
Rising (p ∷ q ∷ points) =
    (p.decicelsius <ℤ q.decicelsius) × (percent_of p.duty ≤ percent_of q.duty) × Rising (q ∷ points)

insert-Ordered : (p : CurvePoint) (ps : List CurvePoint) → Ordered ps → Ordered (insert p ps)
unfolding insert
insert-Ordered p [] o = tt
insert-Ordered p (q ∷ []) o = ground arith
insert-Ordered p (q ∷ r ∷ ps) o = ground (arith, insert-Ordered p (r ∷ ps))

sort-Ordered : (ps : List CurvePoint) → Ordered (sort ps)
unfolding sort
sort-Ordered [] = tt
sort-Ordered (p ∷ ps) = insert-Ordered p (sort ps) (sort-Ordered ps)

insert-perm : (p : CurvePoint) (ps : List CurvePoint) → Perm (insert p ps) (p ∷ ps)
unfolding insert
insert-perm p [] = Perm.refl _
insert-perm p (q ∷ ps) =
    elim (leb_ℤ p.decicelsius q.decicelsius)
      as (λ b. Perm (if b then p ∷ q ∷ ps else q ∷ insert p ps) (p ∷ q ∷ ps)) [
        | true ↦ Perm.refl _
        | false ↦ Perm.trans (Perm.cons q (insert-perm p ps)) (Perm.swap p q ps)
      ]

sort-perm : (ps : List CurvePoint) → Perm (sort ps) ps
unfolding sort
sort-perm [] = Perm.refl _
sort-perm (p ∷ ps) = Perm.trans (insert-perm p (sort ps)) (Perm.cons p (sort-perm ps))

check_windows-Rising : (ps : List CurvePoint) → Ordered ps → check_windows ps ≡ none → Rising ps
unfolding check_windows check_pair
check_windows-Rising [] o e = tt
check_windows-Rising (p ∷ []) o e = tt
check_windows-Rising (p ∷ q ∷ ps) o e = ground (arith, check_windows-Rising (q ∷ ps))

Rising-check_windows : (ps : List CurvePoint) → Rising ps → check_windows ps ≡ none
unfolding check_windows check_pair
Rising-check_windows [] r = refl
Rising-check_windows (p ∷ []) r = refl
Rising-check_windows (p ∷ q ∷ ps) r = ground (arith, Rising-check_windows (q ∷ ps))

-- A list that rises is sorted as it stands.
Rising-sort : (ps : List CurvePoint) → Rising ps → sort ps ≡ ps
unfolding sort insert
Rising-sort [] r = refl
Rising-sort (p ∷ []) r = refl
Rising-sort (p ∷ q ∷ ps) r = ground (arith, Rising-sort (q ∷ ps))

accepted :
    (ps : List CurvePoint) (c : FanCurve)
    → checked ps (check_windows ps) ≡ ok c
    → (check_windows ps ≡ none) × (ps ≡ c.points)
accepted ps c e = elim (Option-cases (check_windows ps)) [
  | inl n ↦ ground arith
  | inr (x, s) ↦ ground arith
]

-- An accepted curve holds exactly the points given, put in order: each is strictly hotter than the
-- one before it and its duty is not lower.
pub new_curve-Rising :
    (ps : List CurvePoint) (c : FanCurve) → new_curve ps ≡ ok c → Rising c.points × Perm c.points ps
unfolding new_curve
new_curve-Rising [] c e = ground arith
new_curve-Rising (p ∷ ps) c e =
    let (n, same) = accepted (sort (p ∷ ps)) c e in
    let rising = check_windows-Rising (sort (p ∷ ps)) (sort-Ordered (p ∷ ps)) n in
    (subst Rising same rising, subst (λ xs. Perm xs (p ∷ ps)) same (sort-perm (p ∷ ps)))

-- Points that rise are accepted as they are given.
pub Rising-new_curve :
    (p : CurvePoint) (ps : List CurvePoint)
    → Rising (p ∷ ps)
    → new_curve (p ∷ ps) ≡ ok (record { points = p ∷ ps })
unfolding new_curve
Rising-new_curve p ps r = rw (Rising-sort (p ∷ ps) r) (rw (Rising-check_windows (p ∷ ps) r))
