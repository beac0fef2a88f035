-- ===== src/Config.antt =====
-- The daemon's configuration (crates/argon-device/src/config.rs): its sections with their defaults, and
-- what is checked of it. Reading TOML is serde's. Of an error the text of what was written is left out.
-- A u8 is a number below 256 and a u64 one below 2^64.
pub mod Validation
pub mod Validated
mod Examples
use argon_utils.Prelude.{
  ℕ, ◌*◌, Bool, true, false, List, [], ◌∷◌, Option, none, some, String, ℤ, pos, Result, ok, err,
  eq_string,
}
use argon_utils.Lid.{LidConfig}
use argon_utils.Mcu.{Dialect, from_config, legacy}
use argon_utils.Mode
use argon_utils.Mode.{Mode}
use argon_utils.Policy.{PolicyConfig}

pub record ButtonConfig : Type 0 where
  pub action : String

unfoldable pub armed : ButtonConfig → Bool
armed c = eq_string c.action "shutdown"

pub record OledConfig : Type 0 where
  pub enabled : Bool
  pub flip : Bool
  pub contrast : ℕ
  pub refresh_s : ℕ

pub record TelemetryConfig : Type 0 where
  pub enabled : Bool
  pub listen : String

pub record CurveEntry : Type 0 where
  pub temp_c : ℤ
  pub duty : ℕ

pub record FanConfig : Type 0 where
  pub curve : List CurveEntry
  pub hysteresis_c : ℤ
  pub min_duty : ℕ
  pub safe_duty : ℕ
  pub hot_threshold_c : ℤ
  pub allow_stop : Bool
  pub poll_interval_s : ℕ
  pub min_write_interval_ms : ℕ

pub record McuConfig : Type 0 where
  pub dialect : String
  pub bus : String

pub record UpsConfig : Type 0 where
  pub source : String
  pub port : String
  pub poll_interval_s : ℕ
  pub low_percent : ℕ
  pub critical_percent : ℕ
  pub recover_margin : ℕ
  pub confirmations : ℕ
  pub min_uptime_s : ℕ
  pub shutdown_delay_min : ℕ
  pub state_file : String
  pub sync_clock : Bool

pub record Config : Type 0 where
  pub mode : String
  pub fan : FanConfig
  pub mcu : McuConfig
  pub ups : UpsConfig
  pub telemetry : TelemetryConfig
  pub oled : OledConfig
  pub lid : LidConfig
  pub button : ButtonConfig

abbrev pub default_button : ButtonConfig
default_button = record { action = "none" }

abbrev pub default_lid : LidConfig
default_lid = record {
  action = "power-save";
  radios_off = false;
  cpu_throttle = false;
  shutdown_delay_s = 1;
}

abbrev pub default_oled : OledConfig
default_oled = record { enabled = false; flip = false; contrast = 64; refresh_s = 5 }

abbrev pub default_telemetry : TelemetryConfig
default_telemetry = record { enabled = false; listen = "127.0.0.1:9843" }

abbrev pub default_fan : FanConfig
default_fan = record {
  curve =
      record { temp_c = pos 55; duty = 30 }
      ∷ record { temp_c = pos 60; duty = 55 }
      ∷ record { temp_c = pos 65; duty = 100 }
      ∷ [];
  hysteresis_c = pos 3;
  min_duty = 10;
  safe_duty = 55;
  hot_threshold_c = pos 75;
  allow_stop = false;
  poll_interval_s = 5;
  min_write_interval_ms = 500;
}

abbrev pub default_mcu : McuConfig
default_mcu = record { dialect = "legacy"; bus = "auto" }

-- The numbers are those of `PolicyConfig::default`.
abbrev pub default_ups : UpsConfig
default_ups = record {
  source = "serial";
  port = "auto";
  poll_interval_s = 10;
  low_percent = 20;
  critical_percent = 10;
  recover_margin = 5;
  confirmations = 2;
  min_uptime_s = 120;
  shutdown_delay_min = 2;
  state_file = "/run/argon-utils/ups.state";
  sync_clock = true;
}

abbrev pub default_config : Config
default_config = record {
  mode = "read-only";
  fan = default_fan;
  mcu = default_mcu;
  ups = default_ups;
  telemetry = default_telemetry;
  oled = default_oled;
  lid = default_lid;
  button = default_button;
}

-- `McuConfig::dialect`.
unfoldable pub dialect : McuConfig → Dialect
dialect c = elim (from_config c.dialect) [ none ↦ legacy | some d ↦ d ]

-- `UpsConfig::policy`.
unfoldable pub policy : UpsConfig → PolicyConfig
policy c = record {
  low_percent = c.low_percent;
  critical_percent = c.critical_percent;
  recover_margin = c.recover_margin;
  confirmations = c.confirmations;
  min_uptime = c.min_uptime_s * 1_000_000_000;
}

pub data ConfigError : Type 0 where
  bad_value : String → String → ConfigError
  curve : ConfigError

-- `Config::mode`.
abbrev pub mode_or_refusal : Option Mode → Result Mode ConfigError
mode_or_refusal none = err (bad_value "mode" "read-only, managed or full")
mode_or_refusal (some m) = ok m

unfoldable pub mode : Config → Result Mode ConfigError
mode c = mode_or_refusal (Mode.parse c.mode)
