-- ===== src/UpsThread/Sleep.antt =====
-- The sleep between rounds, in slices (crates/argon-daemon/src/ups.rs: `sleep_unless`). `stopped i` tells
-- whether either flag is seen set after `i` slices. Durations are nanoseconds.
use argon_utils.Prelude.{
  subst, ℕ, zero, suc, ◌+◌, ◌-◌, ◌*◌, ◌/◌, ◌≤◌, ◌<◌, ◌≡◌, ◌⊎◌, refl, ap, inl, inr, min, Bool, true,
  false, ◌||◌, Bool-cases, Option, none, some, List, [], ◌∷◌, length, ◌==◌, if◌then◌else◌, arith,
}

-- 250 milliseconds.
abbrev pub slice : ℕ
slice = 250_000_000

abbrev pub also : ℕ → Option (List ℕ) → Option (List ℕ)
also d none = none
also d (some ds) = some (d ∷ ds)

-- The durations that are slept, one for each slice; `none` where the fuel runs out.
unfoldable pub sleep_from : (ℕ → Bool) → ℕ → ℕ → ℕ → Option (List ℕ)
sleep_from stopped zero i left = none
sleep_from stopped (suc fuel) i left =
    let d = min left slice in
    let rest = also d (sleep_from stopped fuel (i + 1) (left - d)) in
    if left == 0 || stopped i then some [] else rest

-- One round for each slice, and one to see that none is left.
unfoldable pub sleep_unless : ℕ → (ℕ → Bool) → Option (List ℕ)
unfolding sleep_from
sleep_unless total stopped = sleep_from stopped (total / slice + 2) 0 total

abbrev pub sum : List ℕ → ℕ
sum [] = 0
sum (d ∷ ds) = d + sum ds

abbrev pub AllWithin : List ℕ → Type 0
AllWithin [] = Unit {0}
AllWithin (d ∷ ds) = (d ≤ slice) × AllWithin ds

-- No flag was seen in the `n` looks from the `i`th on.
abbrev pub Clear : (ℕ → Bool) → ℕ → ℕ → Type 0
Clear stopped i zero = Unit {0}
Clear stopped i (suc n) = (stopped i ≡ false) × Clear stopped (i + 1) n

-- A sleep that began with the `i`th look and `left` to go: in slices, with no flag seen before the last
-- look, ended by one at that look or by all of the time slept.
pub record Slept (stopped : ℕ → Bool) (i left : ℕ) (ds : List ℕ) : Type 0 where
  pub slices : AllWithin ds
  pub clear : Clear stopped i (length ds)
  pub total_le : sum ds ≤ left
  pub ended : (stopped (i + length ds) ≡ true) ⊎ (sum ds ≡ left)

stopped-now :
    (stopped : ℕ → Bool) (i left : ℕ)
    → (left == 0 || stopped i) ≡ true
    → (left == 0) ≡ false
    → stopped i ≡ true
stopped-now stopped i left e n = ground arith

ends : (stopped : ℕ → Bool) (i left : ℕ) → (left == 0 || stopped i) ≡ true → Slept stopped i left []
ends stopped i left e = record {
  slices = tt;
  clear = tt;
  total_le = omega arith;
  ended = elim (Bool-cases (left == 0)) [
    | inl z ↦ inr (ground arith)
    | inr n ↦ inl (subst (λ n. stopped n ≡ true) (omega arith) (stopped-now stopped i left e n))
  ];
}

goes_on :
    (stopped : ℕ → Bool) (i left : ℕ) (ds : List ℕ)
    → (left == 0 || stopped i) ≡ false
    → Slept stopped (i + 1) (left - min left slice) ds
    → Slept stopped i left (min left slice ∷ ds)
goes_on stopped i left ds e s = record {
  slices = (omega arith, s.slices);
  clear = (ground arith, s.clear);
  total_le = omega (arith, s.total_le);
  ended = elim s.ended [
    | inl f ↦ inl (subst (λ n. stopped n ≡ true) (omega arith) f)
    | inr f ↦ inr (omega arith)
  ];
}

positive : (left : ℕ) (b : Bool) → (left == 0 || b) ≡ false → 0 < left
positive left b e = ground arith

sleep_from-Slept :
    (stopped : ℕ → Bool) (fuel i left : ℕ)
    → left + slice ≤ fuel * slice
    → (ds : List ℕ) × (sleep_from stopped fuel i left ≡ some ds) × Slept stopped i left ds
unfolding sleep_from
sleep_from-Slept stopped zero i left h = absurd (omega arith)
sleep_from-Slept stopped (suc fuel) i left h = elim (Bool-cases (left == 0 || stopped i)) [
  | inl e ↦ ([], rw e refl, ends stopped i left e)
  | inr e ↦
      let d = min left slice in
      let (ds, f, s) =
        sleep_from-Slept stopped fuel (i + 1) (left - d)
          (omega (arith, positive left (stopped i) e)) in
      (d ∷ ds, rw e (ap (also d) f), goes_on stopped i left ds e s)
]

-- Every sleep ends. It is a series of slices of at most 250 ms, with no flag seen set before the last
-- look at the flags; it ends because that look sees one set, or with the whole time slept.
pub sleep_unless-Slept :
    (total : ℕ) (stopped : ℕ → Bool)
    → (ds : List ℕ) × (sleep_unless total stopped ≡ some ds) × Slept stopped 0 total ds
unfolding sleep_unless
sleep_unless-Slept total stopped =
    sleep_from-Slept stopped (total / slice + 2) 0 total (omega arith)
