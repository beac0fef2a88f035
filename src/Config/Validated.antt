-- ===== src/Config/Validated.antt =====
-- What a configuration that is accepted is.
use argon_utils.Prelude.{
  leb, lt→ltb, ◌==◌, ◌↔◌, ℕ, ◌≤◌, ◌<◌, ◌≡◌, ◌⊎◌, inl, inr, refl, ap, Bool, Bool-cases, true, false,
  not, ◌&&◌, ◌||◌, Option, Option-cases, some, Result-cases, ok, >>=-ok, String, eq_string,
  eq_string_iff, arith,
}
use argon_utils.Fan.{FanCurve, new_curve}
use argon_utils.Fan.Sorted.{Rising, new_curve-Rising}
use argon_utils.Mcu.{Dialect, from_config}
use argon_utils.Mode.{Mode}
use argon_utils.Policy
use argon_utils.Policy.Streaks.{IsValid}
use argon_utils.Config.{Config, ConfigError, mode, policy}
use argon_utils.Config.Validation.{fan_curve, validate, points, require, is_dialect}

-- A text that is one of two.
abbrev pub OneOf : String → String → String → Type 0
OneOf s a b = (s ≡ a) ⊎ (s ≡ b)

-- A configuration that the daemon can run on. `is_address` tells whether a text parses as a socket
-- address.
pub record IsSound (is_address : String → Bool) (c : Config) : Type 0 where
  pub has_mode : (m : Mode) × (mode c ≡ ok m)
  pub has_curve : (f : FanCurve) × (fan_curve c ≡ ok f) × Rising f.points
  pub lid_action : OneOf c.lid.action "power-save" "shutdown"
  pub lid_delay : c.lid.shutdown_delay_s ≤ 60
  pub button_action : OneOf c.button.action "none" "shutdown"
  pub redraws : 0 < c.oled.refresh_s
  pub has_dialect : (d : Dialect) × (from_config c.mcu.dialect ≡ some d)
  pub valid_policy : IsValid (policy c.ups)
  pub delay_ge : 1 ≤ c.ups.shutdown_delay_min
  pub delay_le : c.ups.shutdown_delay_min ≤ 30
  pub source : OneOf c.ups.source "serial" "oneup" ⊎ OneOf c.ups.source "hid" "none"
  pub fallback_spins : 0 < c.fan.safe_duty
  pub address : c.telemetry.enabled ≡ true → is_address c.telemetry.listen ≡ true
  pub fan_polls : 0 < c.fan.poll_interval_s
  pub fan_feeds_watchdog : c.fan.poll_interval_s < 15

required : (b : Bool) (e : ConfigError) → require b e ≡ ok tt → b ≡ true
required true e h = refl
required false e h = cc

one_of : (s a b : String) → (eq_string s a || eq_string s b) ≡ true → OneOf s a b
one_of s a b h = elim (Bool-cases (eq_string s a)) [
  | inl e ↦ inl ((eq_string_iff s a).0 e)
  | inr n ↦ inr ((eq_string_iff s b).0 (ground arith))
]

either : (a b : Bool) → (a || b) ≡ true → (a ≡ true) ⊎ (b ≡ true)
either true b h = inl refl
either false b h = inr h

source_of :
    (s : String)
    → (eq_string s "serial" || (eq_string s "oneup" || (eq_string s "hid" || eq_string s "none")))
      ≡ true
    → OneOf s "serial" "oneup" ⊎ OneOf s "hid" "none"
source_of s h = elim (either (eq_string s "serial") _ h) [
  | inl e ↦ inl (inl ((eq_string_iff s "serial").0 e))
  | inr h' ↦ elim (either (eq_string s "oneup") _ h') [
    | inl e ↦ inl (inr ((eq_string_iff s "oneup").0 e))
    | inr h'' ↦ inr (one_of s "hid" "none" h'')
  ]
]

curve-Rising : (c : Config) (f : FanCurve) → fan_curve c ≡ ok f → Rising f.points
unfolding fan_curve
curve-Rising c f h =
    let (p, e, g) = >>=-ok (points c.fan.curve) _ f h in
    elim (Result-cases (new_curve p)) [
      | inl (f', k) ↦ ground (arith, (new_curve-Rising p f' k).0)
      | inr (x, k) ↦ ground arith
    ]

checked-IsValid : (c : Policy.PolicyConfig) → Policy.validate c ≡ ok tt → IsValid c
unfolding Policy.validate
checked-IsValid c h = ground arith

has-dialect : (o : Option Dialect) → is_dialect o ≡ true → (d : Dialect) × (o ≡ some d)
has-dialect o h = elim (Option-cases o) [ inl n ↦ ground arith | inr d ↦ d ]

module _ (is_address : String → Bool) (c : Config) (h : validate is_address c ≡ ok tt) where
  ranges :
      (c.lid.shutdown_delay_s ≤ 60)
      × (0 < c.oled.refresh_s)
      × (1 ≤ c.ups.shutdown_delay_min)
      × (c.ups.shutdown_delay_min ≤ 30)
      × (0 < c.fan.safe_duty)
      × (0 < c.fan.poll_interval_s)
      × (c.fan.poll_interval_s < 15)
      × (is_dialect (from_config c.mcu.dialect) ≡ true)
  unfolding validate
  ranges = (
    ground arith,
    ground arith,
    ground arith,
    ground arith,
    ground arith,
    ground arith,
    ground arith,
    ground arith,
  )

  choices :
      ((eq_string c.lid.action "power-save" || eq_string c.lid.action "shutdown") ≡ true)
      × ((eq_string c.button.action "none" || eq_string c.button.action "shutdown") ≡ true)
      × ((eq_string c.ups.source "serial"
            || (eq_string c.ups.source "oneup"
                || (eq_string c.ups.source "hid" || eq_string c.ups.source "none")))
          ≡ true)
      × ((c.telemetry.enabled && not (is_address c.telemetry.listen)) ≡ false)
  unfolding validate
  choices = (ground arith, ground arith, ground arith, ground arith)

  parts :
      ((m : Mode) × (mode c ≡ ok m))
      × ((f : FanCurve) × (fan_curve c ≡ ok f))
      × (Policy.validate (policy c.ups) ≡ ok tt)
  unfolding validate
  parts = elim (Result-cases (mode c)) [
    | inr (x, e) ↦ ground arith
    | inl m ↦ elim (Result-cases (fan_curve c)) [
      | inr (x, e) ↦ ground arith
      | inl f ↦ elim (Result-cases (Policy.validate (policy c.ups))) [
        | inr (x, e) ↦ ground arith
        | inl (u, e) ↦ (m, f, e)
      ]
    ]
  ]

  validate-IsSound : IsSound is_address c
  validate-IsSound =
      let (m, (f, ef), p) = parts in
      let (lid, button, source, address) = choices in
      let (lid_le, oled, ge, le, safe, poll, feed, dialect) = ranges in
      record {
        has_mode = m;
        has_curve = (f, ef, curve-Rising c f ef);
        lid_action = one_of c.lid.action "power-save" "shutdown" lid;
        lid_delay = lid_le;
        button_action = one_of c.button.action "none" "shutdown" button;
        redraws = oled;
        has_dialect = has-dialect (from_config c.mcu.dialect) dialect;
        valid_policy = checked-IsValid (policy c.ups) p;
        delay_ge = ge;
        delay_le = le;
        source = source_of c.ups.source source;
        fallback_spins = safe;
        address = λ e. ground arith;
        fan_polls = poll;
        fan_feeds_watchdog = feed;
      }

IsValid-checked : (c : Policy.PolicyConfig) → IsValid c → Policy.validate c ≡ ok tt
unfolding Policy.validate
IsValid-checked c v = ground arith

OneOf-eq_string : (s a b : String) → OneOf s a b → (eq_string s a || eq_string s b) ≡ true
OneOf-eq_string s a b (inl e) = ground (arith, (eq_string_iff s a).1 e)
OneOf-eq_string s a b (inr e) = ground (arith, (eq_string_iff s b).1 e)

four-test : (p q r s : Bool) → ((p || q) ≡ true) ⊎ ((r || s) ≡ true) → (p || (q || (r || s))) ≡ true
four-test true q r s h = refl
four-test false true r s h = refl
four-test false false r s (inr h) = h
four-test false false r s (inl h) = cc

source-test :
    (s : String)
    → OneOf s "serial" "oneup" ⊎ OneOf s "hid" "none"
    → (eq_string s "serial" || (eq_string s "oneup" || (eq_string s "hid" || eq_string s "none")))
      ≡ true
source-test s (inl o) =
    four-test (eq_string s "serial") (eq_string s "oneup") (eq_string s "hid") (eq_string s "none")
      (inl (OneOf-eq_string s "serial" "oneup" o))
source-test s (inr o) =
    four-test (eq_string s "serial") (eq_string s "oneup") (eq_string s "hid") (eq_string s "none")
      (inr (OneOf-eq_string s "hid" "none" o))

address-test : (b a : Bool) → (b ≡ true → a ≡ true) → not (b && not a) ≡ true
address-test true a h = ap (λ x. not (not x)) (h refl)
address-test false a h = refl

le→leb : (a b : ℕ) → a ≤ b → leb a b ≡ true
le→leb a b h = ground arith

pos-not_zero : (n : ℕ) → 0 < n → not (n == 0) ≡ true
pos-not_zero n h = ground arith

sound_accepted :
    (is_address : String → Bool) (c : Config) → IsSound is_address c → validate is_address c ≡ ok tt
unfolding validate
sound_accepted is_address c s = rw (
  s.has_mode.1,
  s.has_curve.1,
  OneOf-eq_string c.lid.action "power-save" "shutdown" s.lid_action,
  le→leb c.lid.shutdown_delay_s 60 s.lid_delay,
  OneOf-eq_string c.button.action "none" "shutdown" s.button_action,
  pos-not_zero c.oled.refresh_s s.redraws,
  s.has_dialect.1,
  IsValid-checked (policy c.ups) s.valid_policy,
  le→leb 1 c.ups.shutdown_delay_min s.delay_ge,
  le→leb c.ups.shutdown_delay_min 30 s.delay_le,
  source-test c.ups.source s.source,
  pos-not_zero c.fan.safe_duty s.fallback_spins,
  address-test c.telemetry.enabled (is_address c.telemetry.listen) s.address,
  pos-not_zero c.fan.poll_interval_s s.fan_polls,
  lt→ltb c.fan.poll_interval_s 15 s.fan_feeds_watchdog,
)

-- A configuration is accepted exactly when it is one that the daemon can run on: its mode and its fan
-- curve can be read, the curve rises in temperature and does not fall in duty, the battery policy
-- and all ranges are valid, and each choice is one of those that are known.
pub validate_iff :
    (is_address : String → Bool) (c : Config)
    → (validate is_address c ≡ ok tt) ↔ IsSound is_address c
validate_iff is_address c = (validate-IsSound is_address c, sound_accepted is_address c)
