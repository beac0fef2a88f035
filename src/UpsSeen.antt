-- ===== src/UpsSeen.antt =====
-- The record of the UPS last seen (crates/argon-device/src/ups_seen.rs), and what the UPS thread does
-- with it (crates/argon-daemon/src/ups.rs: `remember`, `absence`). The file is what it holds, or none;
-- its text form is left out. Times are nanoseconds.
use argon_utils.Prelude.{
  ℕ, ◌-◌, Bool, true, false, not, Option, none, some, String, eq_string, leb, ◌&&◌, ◌||◌,
  if◌then◌else◌,
}
use argon_utils.Service.{UpsStatus, MissingUps}

-- 3,600 seconds.
abbrev pub refresh_every : ℕ
refresh_every = 3_600_000_000_000

pub record SeenUps : Type 0 where
  pub name : String
  pub serial : Option String
  pub last_seen : ℕ

abbrev pub same_serial : Option String → Option String → Bool
same_serial none none = true
same_serial none (some _) = false
same_serial (some _) none = false
same_serial (some a) (some b) = eq_string a b

unfoldable pub same_unit : SeenUps → SeenUps → Bool
same_unit a b = eq_string a.name b.name && same_serial a.serial b.serial

pub record Recorder : Type 0 where
  pub written : Option (SeenUps × ℕ)

abbrev pub new : Recorder
new = record { written = none }

-- `due` of what was written. A time before that one is no time after it.
abbrev pub due_since : Option (SeenUps × ℕ) → SeenUps → ℕ → Bool
due_since none ups now = true
due_since (some (last, at)) ups now = not (same_unit last ups) || leb refresh_every (now - at)

unfoldable pub due : Recorder → SeenUps → ℕ → Bool
due r ups now = due_since r.written ups now

abbrev pub wrote : Recorder → SeenUps → ℕ → Recorder
wrote r ups now = record { written = some (ups, now) }

-- What is remembered: the unit that is read, the recorder, and the file.
pub record Memory : Type 0 where
  pub connected : SeenUps
  pub recorder : Recorder
  pub file : Option SeenUps

-- `remember`; `writable` tells whether the file can be written.
unfoldable pub remember : Memory → Bool → ℕ → Memory
unfolding due same_unit
remember m writable now =
    let ups : SeenUps = record m.connected { last_seen = now } in
    if due m.recorder ups now
    then record {
      connected = ups;
      recorder = wrote m.recorder ups now;
      file = if writable then some ups else m.file;
    }
    else record m { connected = ups }

abbrev pub absent : String
absent = "absent"

abbrev pub missing : String
missing = "missing"

abbrev pub missing_of : Option SeenUps → Option MissingUps
missing_of none = none
missing_of (some r) = some (record { name = r.name; last_seen = some r.last_seen })

abbrev pub absent_level : Option SeenUps → String
absent_level none = absent
absent_level (some _) = missing

unfoldable pub absence : Option SeenUps → ℕ → UpsStatus
absence remembered now = record {
  updated = now;
  level = absent_level remembered;
  percent = none;
  shutdown_at = none;
  missing = missing_of remembered;
}
