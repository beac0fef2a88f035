-- ===== src/Ups/Gated.antt =====
-- What the operations on a gated link can do to the UPS.
use argon_utils.Prelude.{
  ℕ, ◌+◌, ◌≤◌, ◌≡◌, ◌∙◌, ◌⊎◌, inl, inr, refl, ap, sym, subst, if◌then◌else◌, true, some, List, [],
  ◌∷◌, Result, ok, err, arith, Result-cases, Bool-cases,
}
use argon_utils.Command.{
  Command, is_query, is_destructive, set_rtc, set_wake, get_rtc, get_wake, reset_meter, acknowledge,
  battery_status, charge_current, firmware_version,
}
use argon_utils.Frame.{Frame}
use argon_utils.I2c.{Error, write_blocked}
use argon_utils.Ups.{
  UpsLink, Writes, allows, gate, battery, firmware, clock, set_clock, set_schedule, wake,
  charge_current_raw, send, request_deadline,
}
use argon_utils.UpsTime.{UpsTime, encode_clock, decode_clock, seconds_or_zero}
use argon_utils.UpsTime.Wire.{IsEncodable, decode_clock-encode_clock}

-- A gate lets a destructive command through only with its permission: of the clock's or of the
-- wake schedule's setting. The meter's reset never passes.
pub allows-cases :
    (writes : Writes) (cmd : Command)
    → allows writes cmd ≡ true
    → is_destructive cmd ≡ true
    → ((cmd ≡ set_rtc) × (writes.clock ≡ true)) ⊎ ((cmd ≡ set_wake) × (writes.wake ≡ true))
unfolding allows is_query is_destructive
allows-cases writes set_rtc a d = inl (refl, ground arith)
allows-cases writes set_wake a d = inr (refl, ground arith)
allows-cases writes reset_meter a d = ground arith
allows-cases writes acknowledge a d = ground arith
allows-cases writes battery_status a d = ground arith
allows-cases writes charge_current a d = ground arith
allows-cases writes firmware_version a d = ground arith
allows-cases writes get_rtc a d = ground arith
allows-cases writes get_wake a d = ground arith

-- An operation on the UPS.
pub data Call : Type 0 where
  get_battery get_firmware get_clock get_schedule get_current : Call
  put_clock put_schedule : UpsTime → Call

module _ {W : Type 0} (link : UpsLink W) where
  -- What the operation leaves of the link.
  abbrev pub call : W → Call → ℕ → W
  call w get_battery now = (battery link w now).0
  call w get_firmware now = (firmware link w now).0
  call w get_clock now = (clock link w now).0
  call w get_schedule now = (wake link w now).0
  call w get_current now = (charge_current_raw link w now).0
  call w (put_clock t) now = (set_clock link w t now).0
  call w (put_schedule t) now = (set_schedule link w t now).0

  unfoldable pub calls : W → List (Call × ℕ) → W
  calls w [] = w
  calls w ((c, now) ∷ cs) = calls (call w c now) cs

  -- Whatever holds of a link, and every request that it is sent keeps, every run of operations keeps.
  send-keeps :
      (P : W → Type 0)
      → ((w : W) (cmd : Command) (payload : List ℕ) (deadline : ℕ)
          → P w
          → P (link.request w cmd payload deadline).0)
      → (w : W) (cmd : Command) (r : Result (List ℕ) Error) (refusal : Error) (now : ℕ) → P w
      → P (send link w cmd r refusal now).0
  send-keeps P keeps w cmd (ok payload) refusal now p = keeps w cmd payload _ p
  send-keeps P keeps w cmd (err e) refusal now p = p

  pub call-keeps :
      (P : W → Type 0)
      → ((w : W) (cmd : Command) (payload : List ℕ) (deadline : ℕ)
          → P w
          → P (link.request w cmd payload deadline).0)
      → (w : W) (c : Call) (now : ℕ) → P w
      → P (call w c now)
  unfolding battery firmware clock set_clock set_schedule wake charge_current_raw
  call-keeps P keeps w get_battery now p = keeps w _ [] _ p
  call-keeps P keeps w get_firmware now p = keeps w _ [] _ p
  call-keeps P keeps w get_clock now p = keeps w _ [] _ p
  call-keeps P keeps w get_schedule now p = keeps w _ [] _ p
  call-keeps P keeps w get_current now p = keeps w _ [] _ p
  call-keeps P keeps w (put_clock t) now p = send-keeps P keeps w _ _ _ now p
  call-keeps P keeps w (put_schedule t) now p = send-keeps P keeps w _ _ _ now p

  calls-keep :
      (P : W → Type 0)
      → ((w : W) (cmd : Command) (payload : List ℕ) (deadline : ℕ)
          → P w
          → P (link.request w cmd payload deadline).0)
      → (w : W) (cs : List (Call × ℕ)) → P w
      → P (calls w cs)
  unfolding calls
  calls-keep P keeps w [] p = p
  calls-keep P keeps w ((c, now) ∷ cs) p =
      calls-keep P keeps (call w c now) cs (call-keeps P keeps w c now p)

module _ {W : Type 0} (link : UpsLink W) where
  pub gate-keeps :
      (writes : Writes) (P : W → Type 0)
      → ((w : W) (cmd : Command) (payload : List ℕ) (deadline : ℕ)
          → allows writes cmd ≡ true
          → P w
          → P (link.request w cmd payload deadline).0)
      → (w : W) (cmd : Command) (payload : List ℕ) (deadline : ℕ) → P w
      → P ((gate link writes).request w cmd payload deadline).0
  unfolding gate
  gate-keeps writes P keeps w cmd payload deadline p = elim (Bool-cases (allows writes cmd)) [
    | inl a ↦
        subst
          (λ b.
            P
              (if b
                then link.request w cmd payload deadline
                else (w, err (write_blocked "not permitted by this link's gate"))).0)
          (sym a) (keeps w cmd payload deadline a p)
    | inr a ↦
        subst
          (λ b.
            P
              (if b
                then link.request w cmd payload deadline
                else (w, err (write_blocked "not permitted by this link's gate"))).0)
          (sym a) p
  ]

  -- Whatever every command that the gate permits keeps, any run of operations through the gate keeps:
  -- what it does not permit never reaches the UPS.
  pub gated_keeps :
      (writes : Writes) (P : W → Type 0)
      → ((w : W) (cmd : Command) (payload : List ℕ) (deadline : ℕ)
          → allows writes cmd ≡ true
          → P w
          → P (link.request w cmd payload deadline).0)
      → (w : W) (cs : List (Call × ℕ)) → P w
      → P (calls (gate link writes) w cs)
  gated_keeps writes P keeps w cs p =
      calls-keep (gate link writes) P (gate-keeps writes P keeps) w cs p

  -- A UPS that answers the setting of its clock with an empty reply, and a later read of the clock
  -- with the six bytes that were set.
  abbrev pub Remembers : Type 0
  Remembers =
      (w : W) (payload : List ℕ) (deadline later : ℕ) (f : Frame)
      → (link.request w set_rtc payload deadline).1 ≡ ok f
      → (g : Frame) × ((link.request (link.request w set_rtc payload deadline).0 get_rtc [] later).1
          ≡ ok g)
        × (g.payload ≡ payload)

  set_clock-ok :
      (w : W) (t : UpsTime) (payload : List ℕ) (now : ℕ)
      → encode_clock t ≡ ok payload
      → (set_clock link w t now).1 ≡ ok tt
      → ((f : Frame) × ((link.request w set_rtc payload (now + request_deadline)).1 ≡ ok f))
        × ((set_clock link w t now).0 ≡ (link.request w set_rtc payload (now + request_deadline)).0)
  unfolding set_clock
  set_clock-ok w t payload now e h =
      elim (Result-cases (link.request w set_rtc payload (now + request_deadline)).1) [
        | inl (f, g) ↦ ((f, g), ground arith)
        | inr (x, g) ↦ ground arith
      ]

  clock-ok :
      (w : W) (now : ℕ) (f : Frame) (t : UpsTime)
      → (link.request w get_rtc [] (now + request_deadline)).1 ≡ ok f
      → decode_clock f.payload ≡ ok t
      → (clock link w now).1 ≡ ok t
  unfolding clock
  clock-ok w now f t h e = ground arith

  -- On a UPS that remembers what its clock is set to, a clock with two-digit fields whose setting
  -- succeeded is read back as what was set, with a second that was not given as 0.
  pub clock-set_clock :
      Remembers
      → (w : W) (t : UpsTime) (now later : ℕ) → IsEncodable t
      → seconds_or_zero t.second ≤ 99
      → (set_clock link w t now).1 ≡ ok tt
      → (clock link (set_clock link w t now).0 later).1
        ≡ ok (record t { second = some (seconds_or_zero t.second) })
  clock-set_clock remembers w t now later v l h =
      let (y, mo, d, hh, mi, s, enc, dec) = decode_clock-encode_clock t v l in
      let bytes = y ∷ mo ∷ d ∷ hh ∷ mi ∷ s ∷ [] in
      let ((f, e), same) = set_clock-ok w t bytes now enc h in
      let (g, eg, back) =
        remembers w bytes (now + request_deadline) (later + request_deadline) f e in
      let t' = record t { second = some (seconds_or_zero t.second) } in
      subst (λ x. (clock link x later).1 ≡ ok t') (sym same)
        (clock-ok (link.request w set_rtc bytes (now + request_deadline)).0 later g t' eg
          (ap decode_clock back ∙ dec))
