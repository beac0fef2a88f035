-- ===== src/Command.antt =====
-- The UPS's commands and which of them change it (crates/argon-proto/src/ups/mod.rs, and
-- `QueryOnly::is_query` of crates/argon-device/src/ups.rs).
pub mod Bytes
mod Examples
use argon_utils.Prelude.{ℕ, Bool, true, false, Option, none, some, ◌==◌, if◌then◌else◌}

pub data Command : Type 0 where
  battery_status charge_current set_rtc firmware_version get_rtc set_wake get_wake : Command
  acknowledge reset_meter : Command

unfoldable pub as_byte : Command → ℕ
as_byte battery_status = 0
as_byte charge_current = 2
as_byte set_rtc = 3
as_byte firmware_version = 4
as_byte get_rtc = 5
as_byte set_wake = 6
as_byte get_wake = 7
as_byte acknowledge = 8
as_byte reset_meter = 9

unfoldable pub is_destructive : Command → Bool
is_destructive reset_meter = true
is_destructive set_rtc = true
is_destructive set_wake = true
is_destructive _ = false

unfoldable pub from_byte : ℕ → Option Command
from_byte b =
    if b == 0
    then some battery_status
    else if b == 2
    then some charge_current
    else if b == 3
    then some set_rtc
    else if b == 4
    then some firmware_version
    else if b == 5
    then some get_rtc
    else if b == 6
    then some set_wake
    else if b == 7
    then some get_wake
    else if b == 8
    then some acknowledge
    else if b == 9
    then some reset_meter
    else none

unfoldable pub is_query : Command → Bool
is_query battery_status = true
is_query charge_current = true
is_query firmware_version = true
is_query get_rtc = true
is_query get_wake = true
is_query _ = false
