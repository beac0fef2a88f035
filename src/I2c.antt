-- ===== src/I2c.antt =====
-- The I2C bus and its decorators (crates/argon-hal/src/i2c.rs), and the errors of the hardware layer
-- (crates/argon-hal/src/lib.rs: `Error`). The texts that an error formats from values are left out.
-- The trait `I2cBus` is a record of operations on a state of the bus, which the source's `&mut self` is.
pub mod Decorators
mod Examples
use argon_utils.Prelude.{
  ℕ, ◌+◌, ◌-◌, ◌%◌, ◌^◌, Bool, Option, none, some, List, [], ◌∷◌, ◌++◌, Result, ok, err, String,
  ltb, if◌then◌else◌,
}

pub data Error : Type 0 where
  io : String → Error
  timeout : Error
  write_blocked : String → Error
  rate_limited : ℕ → Error
  parse : String → Error

pub record I2cBus (W : Type 0) : Type 0 where
  pub write : W → ℕ → List ℕ → W × Result (Unit {0}) Error
  pub probe : W → ℕ → W × Result Bool Error

module _ {W : Type 0} (bus : I2cBus W) where
  -- `ReadOnly`, on the same state.
  unfoldable pub read_only : I2cBus W
  read_only = record {
    write = λ w addr bytes. (w, err (write_blocked "transport is read-only"));
    probe = bus.probe;
  }

  pub record DryRun : Type 0 where
    pub inner : W
    pub writes : List (ℕ × List ℕ)

  unfoldable pub dry_run : I2cBus DryRun
  dry_run = record {
    write = λ w addr bytes. (record w { writes = w.writes ++ ((addr, bytes) ∷ []) }, ok tt);
    probe = λ w addr.
        let (inner, answer) = bus.probe w.inner addr in (record w { inner = inner }, answer);
  }

  pub record RateLimited : Type 0 where
    pub inner : W
    pub min_interval : ℕ
    pub last_write : Option ℕ
    pub suppressed : ℕ

  -- `RateLimited::new`.
  abbrev pub new_limited : W → ℕ → RateLimited
  new_limited inner min_interval = record {
    inner = inner;
    min_interval = min_interval;
    last_write = none;
    suppressed = 0;
  }

  -- `clock w` is what `Instant::now()` returns in the state `w`, in nanoseconds.
  module _ (clock : W → ℕ) where
    abbrev pub written :
        RateLimited → Result (Unit {0}) Error → RateLimited × Result (Unit {0}) Error
    written r (err e) = (r, err e)
    written r (ok _) = (record r { last_write = some (clock r.inner) }, ok tt)

    abbrev pub write_inner : RateLimited → ℕ → List ℕ → RateLimited × Result (Unit {0}) Error
    write_inner r addr bytes =
        let (w, answer) = bus.write r.inner addr bytes in written (record r { inner = w }) answer

    abbrev pub write_limited :
        RateLimited → Option ℕ → ℕ → List ℕ → RateLimited × Result (Unit {0}) Error
    write_limited r none addr bytes = write_inner r addr bytes
    write_limited r (some last) addr bytes =
        let elapsed = clock r.inner - last in
        let next = write_inner r addr bytes in
        if ltb elapsed r.min_interval
        then (
          record r { suppressed = (r.suppressed + 1) % 2 ^ 64 },
          err (rate_limited (r.min_interval - elapsed)),
        )
        else next

    unfoldable pub rate_limit : I2cBus RateLimited
    rate_limit = record {
      write = λ r addr bytes. write_limited r r.last_write addr bytes;
      probe = λ r addr.
          let (inner, answer) = bus.probe r.inner addr in (record r { inner = inner }, answer);
    }
