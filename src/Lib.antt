-- ===== src/Lib.antt =====
-- A model of the logic of argon-utils, the control software for Argon40 cases, their fans and their
-- UPS, and what is proved of it.
--
-- The daemon polls the UPS over a serial line. Bytes become frames, frames become a battery reading or a
-- failed read, and the readings go through a policy that tells a spike from a battery that is running
-- out. Its decisions go to a coordinator that places, adopts or cancels a poweroff with logind. Beside
-- that, a fan task reads the temperature and sets the fan of the case's microcontroller over I2C; the
-- button and the lid place poweroffs of their own; the UPS's clock is kept right, and a wake schedule
-- is kept away from a running machine.
--
-- Which file models what, with the paths from the root of the repository:
--   Prelude      shared types, tests and lemmas: results, integers, lists, byte tables, texts
--   Bcd          crates/argon-proto/src/bcd.rs: two digits in a byte
--   Battery      crates/argon-proto/src/ups/status.rs: the battery's reply, and the decoding errors
--   UpsTime      the same file: the UPS's clock and schedule on the wire, and Unix time; its children
--                hold the calendar
--   Command      crates/argon-proto/src/ups/mod.rs: the commands of the UPS
--   Frame        crates/argon-proto/src/ups/frame.rs: frames, their encoder and the reader that is
--                pushed one byte at a time
--   Policy       crates/argon-proto/src/ups/policy.rs: the battery policy
--   Ups          crates/argon-device/src/ups.rs: gate, queries, settings, watch and monitor
--   Power        crates/argon-device/src/power.rs: the coordinator of poweroffs
--   Service      crates/argon-device/src/ups_service.rs, and of status.rs what it publishes: one cycle
--   Fan          crates/argon-proto/src/fan/mod.rs, curve.rs: duties, curve and controller
--   I2c          crates/argon-hal/src/i2c.rs, lib.rs: the bus, its decorators, the errors
--   Mcu          crates/argon-device/src/mcu.rs, fan.rs, safety.rs, fan_control.rs: the
--                microcontroller, the fan task and the guard
--   Serial       crates/argon-hal/src/serial.rs: a request over the serial line and its deadline
--   UpsRequest   crates/argon-daemon/src/ups.rs, crates/argon-device/src/control.rs: a requested
--                poweroff with a wake
--   Housekeeping crates/argon-daemon/src/ups.rs: the safety net for the wake, the check of the clock
--   UpsStart, UpsThread
--                the same file: the start of the UPS thread with its permissions, its rounds, its sleep
--   UpsSeen      crates/argon-device/src/ups_seen.rs: the record of the UPS that was last seen
--   Status       crates/argon-device/src/status.rs: what the published status means, and the notices
--                that a session gives of it
--   Gauge        crates/argon-proto/src/cw2217.rs, crates/argon-device/src/gauge.rs: the fuel gauge of
--                the Argon ONE UP and the monitor over it
--   Drift        crates/argon-device/src/drift.rs: the record of the clock's drift
--   Mode         crates/argon-hal/src/mode.rs
--   Config       crates/argon-device/src/config.rs: sections, defaults and validation
--   Simulator    crates/argon-sim/src/ups.rs: the simulated UPS that the tests run against
--   Zigbee       crates/argon-proto/src/zigbee.rs: the frames of a Zigbee coordinator, and their reader
--   Button       crates/argon-device/src/button.rs
--   ButtonThread crates/argon-daemon/src/button.rs: the thread that watches the button's line
--   Notice       crates/argon-device/src/shutdown_notice.rs: notices of scheduled poweroffs
--   Lid          crates/argon-device/src/lid.rs
--   Wake         crates/argon-device/src/wake.rs
--   ClockSync    crates/argon-device/src/clock_sync.rs
-- A module's children are named for what they prove; Examples has concrete runs.
--
-- How the model stands to the source. A struct is a record, an enum a data type with its variants, and
-- a method that takes `&mut self` is a function from a state to a state and a result. A trait of
-- operations (PowerControl, UpsLink, I2cBus) is a record of functions on a state that stands for the
-- outside. What that outside does is not modelled: theorems that rely on it take its behaviour as a
-- hypothesis with a name (IsLogind, IsBus, KeepsSchedule), and Examples has an outside that satisfies it.
-- Times and durations are natural numbers, of nanoseconds or seconds as each file says; the current
-- time is an argument, or is read off the state. A byte is a number below 256, which a theorem assumes
-- where it matters. An i32 of the fan controller wraps to 32 bits where it is computed, counters
-- saturate or wrap as in the source, and the buffer of the frame reader is a list of its 259 bytes with
-- the writes of the source. Loops are structural recursion, but for the sleep between rounds, which has
-- fuel for one round per slice of 250 ms and is proved to end within it. What a thread meets on its way
-- (the reads of the port, the rounds of the loop, the edges of the button's line) is a list of what it
-- meets, which the theorems range over.
--
-- What is left out: the texts of messages and errors that are formatted from values, logs, the files,
-- processes and sockets through which the daemon reaches the system, and these parts: HID, the
-- display, the text formats, the command line, the tray and the exporter.
mod Prelude
pub mod Bcd
pub mod Battery
pub mod UpsTime
pub mod Command
pub mod Frame
pub mod Fan
pub mod I2c
pub mod Zigbee
pub mod Serial
pub mod Mcu
pub mod Policy
pub mod Ups
pub mod Power
pub mod Mode
pub mod Service
pub mod Button
pub mod ButtonThread
pub mod Notice
pub mod Lid
pub mod Wake
pub mod ClockSync
pub mod Drift
pub mod Config
pub mod Gauge
pub mod UpsRequest
pub mod Housekeeping
pub mod UpsSeen
pub mod Status
pub mod Simulator
pub mod UpsStart
pub mod UpsThread
