-- ===== src/Status.antt =====
-- What the published status means at a moment, and what of it is worth a notice
-- (crates/argon-device/src/status.rs). Times are nanoseconds. The parts of a notice's text that are
-- formatted from a percentage, a time or a name are given by functions.
pub mod Warnings
mod Examples
use argon_utils.Prelude.{
  ℕ, ◌-◌, ◌&&◌, ◌||◌, not, Bool, true, false, Option, none, some, String, eq_string, ◌+text◌, ltb,
  if◌then◌else◌,
}
use argon_utils.Notice.{Notice, Urgency}
use argon_utils.Service.{UpsStatus, MissingUps}
use argon_utils.UpsSeen.{absent, missing}

-- Sixty seconds.
abbrev pub stale_after : ℕ
stale_after = 60_000_000_000

unfoldable pub source_of : String → String
source_of level =
    if eq_string level "on-mains"
    then "mains"
    else if eq_string level "on-battery" || (eq_string level "low" || eq_string level "critical")
    then "battery"
    else "unknown"

pub data LevelName : Type 0 where
  on_mains on_battery low critical : LevelName
  unrecognised : String → LevelName

pub data Reading : Type 0 where
  no_data failed no_ups : Reading
  stale : ℕ → Reading
  power_off_pending : ℕ → ℕ → Reading
  ups_missing : String → Option ℕ → Reading
  current : ℕ → LevelName → Reading

unfoldable pub level_of : String → LevelName
level_of level =
    if eq_string level "on-mains"
    then on_mains
    else if eq_string level "on-battery"
    then on_battery
    else if eq_string level "low"
    then low
    else if eq_string level "critical"
    then critical
    else unrecognised level

abbrev pub name_of : Option MissingUps → String
name_of none = "the UPS"
name_of (some m) = m.name

abbrev pub last_seen_of : Option MissingUps → Option ℕ
last_seen_of none = none
last_seen_of (some m) = m.last_seen

abbrev pub pending_or_level : ℕ → String → Option ℕ → Reading
pending_or_level percent level (some at) = power_off_pending percent at
pending_or_level percent level none = current percent (level_of level)

abbrev pub with_percent : UpsStatus → Option ℕ → Reading
with_percent s none = failed
with_percent s (some percent) =
    if eq_string s.level "unknown" then failed else pending_or_level percent s.level s.shutdown_at

-- `interpret` of a status that is there. A time that is ahead is no age.
abbrev pub interpret_some : UpsStatus → ℕ → Reading
interpret_some s now =
    if ltb stale_after (now - s.updated)
    then stale (now - s.updated)
    else if eq_string s.level absent
    then no_ups
    else if eq_string s.level missing
    then ups_missing (name_of s.missing) (last_seen_of s.missing)
    else with_percent s s.percent

unfoldable pub interpret : Option UpsStatus → ℕ → Reading
interpret none now = no_data
interpret (some s) now = interpret_some s now

pub record Watcher : Type 0 where
  pub last : Option UpsStatus
  pub stale_reported : Bool

abbrev pub new : Watcher
new = record { last = none; stale_reported = false }

abbrev pub notice_of : Urgency → String → Option Notice
notice_of urgency text = some (record { urgency = urgency; text = text })

abbrev pub missing_notice : UpsStatus → Option Notice
missing_notice s = notice_of Urgency.normal (
    "The UPS connected before ("
    +text name_of s.missing
    +text ") cannot be found: no battery is being watched.")

abbrev pub is_some : {A : Type 0} → Option A → Bool
is_some none = false
is_some (some _) = true

abbrev pub was_scheduled : Option UpsStatus → Option ℕ
was_scheduled none = none
was_scheduled (some prev) = prev.shutdown_at

-- `pct` renders a percentage, with a space and in brackets; `format_time` a time.
module _ (pct : ℕ → String) (format_time : ℕ → String) where
  abbrev pub pct_of : Option ℕ → String
  pct_of none = ""
  pct_of (some p) = pct p

  -- The first status that is seen.
  abbrev pub first_notice : UpsStatus → Option Notice
  first_notice s =
      if eq_string s.level missing
      then missing_notice s
      else if eq_string s.level "low"
      then notice_of Urgency.normal ("Battery low" +text pct_of s.percent +text ".")
      else if eq_string s.level "critical"
      then notice_of Urgency.critical ("Battery critical" +text pct_of s.percent +text ".")
      else none

  abbrev pub urgency_of : String → Urgency
  urgency_of level = if eq_string level "critical" then Urgency.critical else Urgency.normal

  -- The match on two levels that differ.
  abbrev pub change_notice : UpsStatus → UpsStatus → Option Notice
  change_notice prev s =
      if eq_string s.level missing
      then missing_notice s
      else if eq_string s.level absent
      then none
      else if eq_string prev.level missing
      then notice_of (urgency_of s.level)
          ("The UPS is connected again" +text pct_of s.percent +text ".")
      else if eq_string prev.level absent
      then notice_of (urgency_of s.level) ("UPS connected" +text pct_of s.percent +text ".")
      else if eq_string s.level "on-battery" && eq_string prev.level "on-mains"
      then notice_of (urgency_of s.level) ("Running on battery" +text pct_of s.percent +text ".")
      else if eq_string s.level "low"
      then notice_of (urgency_of s.level) ("Battery low" +text pct_of s.percent +text ".")
      else if eq_string s.level "critical"
      then notice_of (urgency_of s.level) ("Battery critical" +text pct_of s.percent +text ".")
      else if eq_string s.level "on-mains"
      then notice_of (urgency_of s.level) ("Mains power restored" +text pct_of s.percent +text ".")
      else if eq_string s.level "unknown"
      then notice_of (urgency_of s.level) "Lost contact with the battery."
      else none

  abbrev pub level_notice : Option UpsStatus → UpsStatus → Option Notice
  level_notice none s = first_notice s
  level_notice (some prev) s = if eq_string prev.level s.level then none else change_notice prev s

  -- `notice`, by the poweroff that is scheduled now and the one that was.
  abbrev pub notice_by : Option UpsStatus → UpsStatus → Option ℕ → Option ℕ → Option Notice
  notice_by previous s (some at) none = notice_of Urgency.critical (
      "Battery critical"
      +text pct_of s.percent
      +text ": powering off at "
      +text format_time at
      +text ". Restore mains power to cancel.")
  notice_by previous s none (some _) = notice_of Urgency.normal (
      if eq_string s.level "on-mains"
      then "Mains power restored" +text pct_of s.percent +text ": shutdown cancelled."
      else "Scheduled shutdown cancelled.")
  notice_by previous s (some _) (some _) = level_notice previous s
  notice_by previous s none none = level_notice previous s

  unfoldable pub notice : Option UpsStatus → UpsStatus → Option Notice
  notice previous s = notice_by previous s s.shutdown_at (was_scheduled previous)

  -- `Watcher::observe` of a status that is there.
  abbrev pub observe_some : Watcher → UpsStatus → ℕ → Watcher × Option Notice
  observe_some w s now =
      if ltb stale_after (now - s.updated)
      then (
        record w { stale_reported = true },
        if is_some w.last && not w.stale_reported
            then notice_of Urgency.normal "Battery monitoring has stopped updating."
            else none,
      )
      else (record { last = some s; stale_reported = false }, notice w.last s)

  unfoldable pub observe : Watcher → Option UpsStatus → ℕ → Watcher × Option Notice
  observe w none now = (w, none)
  observe w (some s) now = observe_some w s now
