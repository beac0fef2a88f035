-- ===== src/I2c/Decorators.antt =====
-- What a device has been told, through the bus and its decorators.
use argon_utils.Prelude.{
  ℕ, ◌+◌, ◌-◌, ◌%◌, ◌^◌, ap, sym, subst, ◌≤◌, ◌<◌, ◌≡◌, refl, Option, some, List, [], ◌∷◌, ok, err,
  arith,
}
use argon_utils.I2c.{I2cBus, Error, rate_limited, read_only, RateLimited, rate_limit}

-- What a bus promises of `told`, the last write that the device at each address took: a write
-- that succeeds is that, and one that fails changes nothing at any address.
pub record IsBus {W : Type 0} (bus : I2cBus W) (told : W → ℕ → Option (List ℕ)) : Type 0 where
  pub write_ok :
      (w : W) (addr : ℕ) (bytes : List ℕ)
      → (bus.write w addr bytes).1 ≡ ok tt
      → told (bus.write w addr bytes).0 addr ≡ some bytes
  pub write_err :
      (w : W) (addr at : ℕ) (bytes : List ℕ) (e : Error)
      → (bus.write w addr bytes).1 ≡ err e
      → told (bus.write w addr bytes).0 at ≡ told w at
  pub probe_keeps : (w : W) (addr at : ℕ) → told (bus.probe w addr).0 at ≡ told w at

module _ {W : Type 0} (bus : I2cBus W) (told : W → ℕ → Option (List ℕ))
    (laws : IsBus bus told) where
  -- A read-only bus keeps the promise.
  pub read_only-IsBus : IsBus (read_only bus) told
  unfolding read_only
  read_only-IsBus = record {
    write_ok = λ w addr bytes h. ground arith;
    write_err = λ w addr at bytes e h. refl;
    probe_keeps = laws.probe_keeps;
  }

  module _ (clock : W → ℕ) where
    -- A rate limiter keeps the promise of the bus that it wraps: it reports success only for what the
    -- device took, and refuses without a change.
    pub rate_limit-IsBus : IsBus (rate_limit bus clock) (λ r. told r.inner)
    unfolding rate_limit
    rate_limit-IsBus = record {
      write_ok = λ r addr bytes h. ground (arith, laws.write_ok r.inner addr bytes);
      write_err = λ r addr at bytes e h. ground (arith, laws.write_err r.inner addr at bytes e);
      probe_keeps = λ r addr at. laws.probe_keeps r.inner addr at;
    }

-- Attempts to write, each after a time that passes.
abbrev pub Attempts : Type 0
Attempts = List (ℕ × ℕ × List ℕ)

abbrev pub total : Attempts → ℕ
total [] = 0
total ((delay, _, _) ∷ rest) = delay + total rest

module _ {W : Type 0} (bus : I2cBus W) (clock : W → ℕ) (pass : W → ℕ → W) where
  abbrev waited : RateLimited bus → ℕ → RateLimited bus
  waited r delay = record r { inner = pass r.inner delay }

  -- Every attempt is refused as too early, and the wrapped bus sees none of them: all that happens
  -- to it is the passing of time.
  abbrev pub AllRefused : RateLimited bus → Attempts → Type 0
  AllRefused r [] = Unit {0}
  AllRefused r ((delay, addr, bytes) ∷ rest) =
      let (r', answer) = (rate_limit bus clock).write (waited r delay) addr bytes in
      ((wait : ℕ) × (answer ≡ err (rate_limited wait)))
      × (r'.inner ≡ pass r.inner delay)
      × AllRefused r' rest

  refused :
      (r : RateLimited bus) (last addr : ℕ) (bytes : List ℕ)
      → r.last_write ≡ some last
      → last ≤ clock r.inner
      → clock r.inner < last + r.min_interval
      → (rate_limit bus clock).write r addr bytes ≡ (
        record r { suppressed = (r.suppressed + 1) % 2 ^ 64 },
        err (rate_limited (r.min_interval - (clock r.inner - last))),
      )
  unfolding rate_limit
  refused r last addr bytes e b l = ground arith

  refuses_early :
      ((w : W) (d : ℕ) → clock (pass w d) ≡ clock w + d)
      → (r : RateLimited bus) (last : ℕ) (rest : Attempts) → r.last_write ≡ some last
      → last ≤ clock r.inner
      → clock r.inner + total rest < last + r.min_interval
      → AllRefused r rest
  refuses_early passes r last [] e b l = tt
  refuses_early passes r last ((delay, addr, bytes) ∷ rest) e b l =
      let w = waited r delay in
      let step =
        refused w last addr bytes e (omega (arith, passes r.inner delay))
          (omega (arith, passes r.inner delay)) in
      let r' = record w { suppressed = (r.suppressed + 1) % 2 ^ 64 } in
      let wait = r.min_interval - (clock w.inner - last) in
      (
        (wait, ap (λ x. x.1) step),
        ap (λ x. x.0.inner) step,
        subst (λ x. AllRefused x.0 rest) (sym step)
            (refuses_early passes r' last rest e (omega (arith, passes r.inner delay))
              (omega (arith, passes r.inner delay))),
      )

  write_sets :
      (r : RateLimited bus) (addr : ℕ) (bytes : List ℕ)
      → ((rate_limit bus clock).write r addr bytes).1 ≡ ok tt
      → let r' = ((rate_limit bus clock).write r addr bytes).0 in
        (r'.last_write ≡ some (clock r'.inner)) × (r'.min_interval ≡ r.min_interval)
  unfolding rate_limit
  write_sets r addr bytes h = ground arith

  -- With a clock that advances by the time that passes: after a write that succeeded, every further
  -- attempt that comes in less than the interval is refused with a time to wait, and the wrapped
  -- bus sees none of them.
  pub write-AllRefused :
      ((w : W) (d : ℕ) → clock (pass w d) ≡ clock w + d)
      → (r : RateLimited bus) (addr : ℕ) (bytes : List ℕ) (rest : Attempts)
      → ((rate_limit bus clock).write r addr bytes).1 ≡ ok tt
      → total rest < r.min_interval
      → AllRefused ((rate_limit bus clock).write r addr bytes).0 rest
  write-AllRefused passes r addr bytes rest h l =
      let (set, same) = write_sets r addr bytes h in
      let r' = ((rate_limit bus clock).write r addr bytes).0 in
      refuses_early passes r' (clock r'.inner) rest set (omega arith) (omega (arith, same))
