-- ===== src/Simulator/Faithful.antt =====
-- The simulator as a UPS for the driver.
use argon_utils.Prelude.{
  if◌then◌else◌, ℕ, ◌+◌, ◌≤◌, ◌≡◌, ◌∙◌, refl, ap, Bool, true, false, List, [], length, Result, ok,
  err, arith,
}
use argon_utils.Battery.{DecodeError}
use argon_utils.Command.{Command, as_byte}
use argon_utils.Command.Bytes.{from_byte-as_byte}
use argon_utils.Frame
use argon_utils.Frame.{Frame, encode_into}
use argon_utils.Frame.Layout.{frame_bytes}
use argon_utils.Serial.Replies.{encoded_bytes, new-ok}
use argon_utils.UpsRequest.Schedule.{KeepsSchedule}
use argon_utils.UpsTime.{UpsTime, decode_clock, decode_schedule}
use argon_utils.UpsTime.Wire.{encode_schedule-decode_schedule}
use argon_utils.Simulator.{
  UpsSim, reply, respond, direct, wake_bytes, store_wake, emit, store_clock, framed, sent,
  respond_to,
}

-- The simulator without faults keeps its wake schedule, as the requests rely on.
pub direct-KeepsSchedule : (now : ℕ) → KeepsSchedule (direct now) (λ s. wake_bytes s.wake)
unfolding direct reply
direct-KeepsSchedule now = record {
  read_keeps = λ w deadline. refl;
  read_true = λ w deadline f e. ground arith;
  set_ok = λ w payload deadline f t a d e n.
      ground (arith, encode_schedule-decode_schedule payload t a d);
}

-- A simulator that misbehaves in nothing that the wire shows.
pub record IsClean (sim : UpsSim) : Type 0 where
  pub speaks : sim.faults.silent ≡ false
  pub no_junk : sim.faults.junk_prefix ≡ 0
  pub whole : sim.faults.corrupt_every ≡ 0

emit-clean :
    (sim : UpsSim) (out : List ℕ)
    → sim.faults.junk_prefix ≡ 0
    → sim.faults.corrupt_every ≡ 0
    → emit sim out ≡ (record sim { responses = sim.responses + 1 }, out)
emit-clean sim out j c = rw (j, c) refl

store_clock-faults :
    (sim : UpsSim) (now : ℕ) (r : Result UpsTime DecodeError)
    → (store_clock sim now r).faults ≡ sim.faults
store_clock-faults sim now (ok t) = ground arith
store_clock-faults sim now (err e) = refl

store_wake-faults :
    (sim : UpsSim) (r : Result UpsTime DecodeError) → (store_wake sim r).faults ≡ sim.faults
store_wake-faults sim (ok t) = ground arith
store_wake-faults sim (err e) = refl

reply-faults :
    (sim : UpsSim) (now : ℕ) (cmd : Command) (payload : List ℕ)
    → (reply sim now cmd payload).0.faults ≡ sim.faults
unfolding reply
reply-faults sim now Command.battery_status payload = refl
reply-faults sim now Command.charge_current payload = refl
reply-faults sim now Command.firmware_version payload = refl
reply-faults sim now Command.get_rtc payload = refl
reply-faults sim now Command.get_wake payload = refl
reply-faults sim now Command.set_rtc payload = store_clock-faults sim now (decode_clock payload)
reply-faults sim now Command.set_wake payload = store_wake-faults sim (decode_schedule payload)
reply-faults sim now Command.reset_meter payload = refl
reply-faults sim now Command.acknowledge payload = refl

framed-clean :
    (sim : UpsSim) (cmd : ℕ) (payload : List ℕ)
    → sim.faults.junk_prefix ≡ 0
    → sim.faults.corrupt_every ≡ 0
    → length payload ≤ 255
    → framed sim (Frame.new cmd payload) ≡ (
      record sim { responses = sim.responses + 1 },
      frame_bytes (record { cmd = cmd; payload = payload }),
    )
framed-clean sim cmd payload j c l =
    let f : Frame = record { cmd = cmd; payload = payload } in
    let (rest, enc, took) = encoded_bytes f l in
    ap (framed sim) (new-ok cmd payload l)
    ∙ ap (sent sim) enc
    ∙ ap (emit sim) took
    ∙ emit-clean sim (frame_bytes f) j c

if-false {ℓ} : {A : Type ℓ} (b : Bool) (x y : A) → b ≡ false → (if b then x else y) ≡ y
if-false true x y e = cc
if-false false x y e = refl

-- What a simulator that misbehaves in nothing answers to a frame: the frame with the same command and
-- the payload of its reply.
pub respond-clean :
    (sim : UpsSim) (now : ℕ) (cmd : Command) (payload : List ℕ)
    → IsClean sim
    → length (reply sim now cmd payload).1 ≤ 255
    → let (sim', answer) = reply sim now cmd payload in
      respond sim now (record { cmd = as_byte cmd; payload = payload }) ≡ (
        record sim' { responses = sim'.responses + 1 },
        frame_bytes (record { cmd = as_byte cmd; payload = answer }),
      )
unfolding respond
respond-clean sim now cmd payload c l =
    let (sim', answer) = reply sim now cmd payload in
    let same = reply-faults sim now cmd payload in
    if-false sim.faults.silent (sim, []) _ c.speaks
    ∙ ap (respond_to sim now (record { cmd = as_byte cmd; payload = payload }))
        (from_byte-as_byte cmd)
    ∙ framed-clean sim' (as_byte cmd) answer (ap (λ f. f.junk_prefix) same ∙ c.no_junk)
        (ap (λ f. f.corrupt_every) same ∙ c.whole) l
