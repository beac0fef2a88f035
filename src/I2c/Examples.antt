-- ===== src/I2c/Examples.antt =====
-- A bus that works, and the theorems at it.
use argon_utils.Prelude.{
  ℕ, ◌+◌, ◌≡◌, refl, Option, none, some, List, [], ◌∷◌, ok, err, ◌==◌, if◌then◌else◌, arith,
}
use argon_utils.I2c.{I2cBus, timeout, new_limited, rate_limit}
use argon_utils.I2c.Decorators.{IsBus, AllRefused, write-AllRefused}

-- The time, and what the device at 0x1a took last.
abbrev Wires : Type 0
Wires = ℕ × Option (List ℕ)

-- A bus with the one device, which takes every write, in one unit of time.
abbrev wires : I2cBus Wires
wires = record {
  write = λ (t, told) addr bytes.
      if addr == 0x1a then ((t + 1, some bytes), ok tt) else ((t + 1, told), err timeout);
  probe = λ w addr. (w, ok (addr == 0x1a));
}

abbrev last_told : Wires → ℕ → Option (List ℕ)
last_told (t, told) addr = if addr == 0x1a then told else none

wires-IsBus : IsBus wires last_told
wires-IsBus = record {
  write_ok = λ w addr bytes h. ground arith;
  write_err = λ w addr at bytes e h. ground arith;
  probe_keeps = λ w addr at. refl;
}

first_write :
    ((rate_limit wires (λ w. w.0)).write (new_limited wires (0, none) 10) 0x1a (55 ∷ [])).1 ≡ ok tt
unfolding rate_limit
first_write = refl

write-AllRefused_example :
    AllRefused wires
      (λ w. w.0)
      (λ w d. (w.0 + d, w.1))
      ((rate_limit wires (λ w. w.0)).write (new_limited wires (0, none) 10) 0x1a (55 ∷ [])).0
      ((3, 0x1a, 0 ∷ []) ∷ (4, 0x1a, 100 ∷ []) ∷ [])
write-AllRefused_example =
    write-AllRefused wires (λ w. w.0) (λ w d. (w.0 + d, w.1)) (λ w d. refl)
      (new_limited wires (0, none) 10) 0x1a (55 ∷ []) ((3, 0x1a, 0 ∷ []) ∷ (4, 0x1a, 100 ∷ []) ∷ [])
      first_write (omega arith)
