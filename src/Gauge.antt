-- ===== src/Gauge.antt =====
-- The fuel gauge of the Argon ONE UP (crates/argon-proto/src/cw2217.rs and
-- crates/argon-device/src/gauge.rs): its registers, the driver that may only read some of them, and the
-- monitor over it. The trait `RegisterRead` is an operation on a state of the bus.
pub mod Reads
pub mod Cycle
mod Examples
use argon_utils.Prelude.{
  ℕ, ◌+◌, ◌-◌, ◌*◌, ◌/◌, ◌&&◌, ◌||◌, bit_and, bit_or, Bool, true, false, Option, none, some, List,
  [], ◌∷◌, Result, ok, err, ◌>>=◌, map_ok, get_or, ltb, leb, ◌==◌, ℤ, pos, negsuc, leb_ℤ,
  if◌then◌else◌,
}
use argon_utils.Battery
use argon_utils.Battery.{BatteryStatus, PowerSource}
use argon_utils.I2c.{Error, write_blocked, parse}
use argon_utils.Service.{Monitor}
use argon_utils.Ups.{Watch, Poll, observe}

abbrev pub version_value : ℕ
version_value = 0xa0

abbrev pub version : ℕ
version = 0x00

abbrev pub vcell : ℕ
vcell = 0x02

abbrev pub soc_register : ℕ
soc_register = 0x04

abbrev pub current_register : ℕ
current_register = 0x0e

abbrev pub cycles_register : ℕ
cycles_register = 0xa4

abbrev pub soh_register : ℕ
soh_register = 0xa6

-- `READS`.
abbrev pub reads : List (ℕ × ℕ)
reads =
    (version, 1)
    ∷ (vcell, 2)
    ∷ (soc_register, 2)
    ∷ (current_register, 2)
    ∷ (cycles_register, 2)
    ∷ (soh_register, 1)
    ∷ []

abbrev pub any_read : List (ℕ × ℕ) → ℕ → ℕ → Bool
any_read [] register len = false
any_read ((r, n) ∷ more) register len = (r == register) && (n == len) || any_read more register len

unfoldable pub is_permitted_read : ℕ → ℕ → Bool
is_permitted_read register len = any_read reads register len

-- Of the bytes of a register, as an array of two.
unfoldable pub vcell_microvolts : ℕ → ℕ → ℕ
vcell_microvolts hi lo = bit_or (bit_and hi 0x3f * 256) lo * 3_125 / 10

unfoldable pub soc : ℕ → ℕ → ℕ × ℕ
soc hi lo = (if ltb 100 hi then 100 else hi, lo)

-- `i16::from_be_bytes`.
unfoldable pub current_raw : ℕ → ℕ → ℤ
current_raw hi lo = let n = hi * 256 + lo in if ltb n 32_768 then pos n else negsuc (65_535 - n)

pub data Flow : Type 0 where
  charging discharging idle : Flow

-- `FLOW_THRESHOLD`, 200, and its negation.
abbrev pub flow_threshold : ℤ
flow_threshold = pos 200

abbrev pub minus_threshold : ℤ
minus_threshold = negsuc 199

unfoldable pub flow : ℤ → Flow
flow current =
    if leb_ℤ current minus_threshold
    then discharging
    else if leb_ℤ flow_threshold current
    then charging
    else idle

unfoldable pub power_source : Flow → PowerSource
power_source discharging = Battery.battery
power_source charging = Battery.mains
power_source idle = Battery.mains

pub record Reading : Type 0 where
  pub percent : ℕ
  pub vcell_uv : ℕ
  pub current : ℤ
  pub flow : Flow

-- `Reading::battery`.
abbrev pub battery_of : Reading → BatteryStatus
battery_of r = record { percent = r.percent; source = power_source r.flow }

pub record Health : Type 0 where
  pub cycles : ℕ
  pub soh : ℕ

pub record RegisterRead (W : Type 0) : Type 0 where
  pub read_registers : W → ℕ → ℕ → W × Result (List ℕ) Error

-- The bytes of an array that was read.
abbrev pub first : List ℕ → ℕ
first buf = get_or buf 0 0

abbrev pub second : List ℕ → ℕ
second buf = get_or buf 1 0

module _ {W : Type 0} (bus : RegisterRead W) where
  -- `Cw2217::read`.
  unfoldable pub read : W → ℕ → ℕ → W × Result (List ℕ) Error
  read w register len =
      if is_permitted_read register len then bus.read_registers w register len else (
        w,
        err (write_blocked "not one of the documented read-only registers this driver may read"),
      )

  abbrev pub confirmed : List ℕ → Result (Unit {0}) Error
  confirmed buf =
      if first buf == version_value
      then ok tt
      else err (parse "a CW2217 VERSION register (expected 0xa0)")

  -- `Cw2217::identify`, on the same bus.
  unfoldable pub identify : W → W × Result (Unit {0}) Error
  identify w = let (w', r) = read w version 1 in (w', (r >>= λ buf. confirmed buf))

  abbrev pub reading_of : List ℕ → List ℕ → List ℕ → Reading
  reading_of s v c =
      let current = current_raw (first c) (second c) in
      record {
        percent = (soc (first s) (second s)).0;
        vcell_uv = vcell_microvolts (first v) (second v);
        current = current;
        flow = flow current;
      }

  abbrev pub read_current : W → List ℕ → List ℕ → W × Result Reading Error
  read_current w s v = let (w', r) = read w current_register 2 in (w', map_ok (reading_of s v) r)

  abbrev pub read_voltage : W → List ℕ → Result (List ℕ) Error → W × Result Reading Error
  read_voltage w s (err e) = (w, err e)
  read_voltage w s (ok v) = read_current w s v

  abbrev pub read_rest : W → Result (List ℕ) Error → W × Result Reading Error
  read_rest w (err e) = (w, err e)
  read_rest w (ok s) = let (w', r) = read w vcell 2 in read_voltage w' s r

  -- Charge, then voltage, then current: the first that fails ends it.
  unfoldable pub read_now : W → W × Result Reading Error
  read_now w = let (w', r) = read w soc_register 2 in read_rest w' r

  abbrev pub read_soh : W → Result (List ℕ) Error → W × Result Health Error
  read_soh w (err e) = (w, err e)
  read_soh w (ok c) =
      let (w', r) = read w soh_register 1 in
      (
        w',
        map_ok
            (λ s. let h : Health = record { cycles = first c * 256 + second c; soh = first s } in h)
            r,
      )

  unfoldable pub health : W → W × Result Health Error
  health w = let (w', r) = read w cycles_register 2 in read_soh w' r

pub record GaugeMonitor (W : Type 0) : Type 0 where
  pub gauge : W
  pub watch : Watch
  pub last : Option Reading

abbrev pub ok_of : Result Reading Error → Option Reading
ok_of (ok r) = some r
ok_of (err _) = none

-- `impl Monitor for GaugeMonitor`.
unfoldable pub gauge_monitor : {W : Type 0} → RegisterRead W → Monitor (GaugeMonitor W)
gauge_monitor bus = record {
  poll = λ m uptime.
      let (w, reading) = read_now bus m.gauge in
      let (watch, answer) = observe m.watch (map_ok battery_of reading) uptime in
      (record { gauge = w; watch = watch; last = ok_of reading }, answer);
}
