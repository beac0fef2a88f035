-- ===== src/Simulator/Wire.antt =====
-- The driver's serial link and the simulator, joined by their bytes.
use argon_utils.Prelude.{
  ℕ, ◌+◌, ◌<◌, ◌≤◌, ◌≡◌, ◌∙◌, refl, sym, ap, Bool-cases, inl, inr, Option, none, some, List, [],
  ◌∷◌, ◌++◌, append-nil, length, Result, ok, err, ltb,
}
use argon_utils.Command.{Command, as_byte}
use argon_utils.Frame.{Frame}
use argon_utils.Frame.Layout.{frame_bytes}
use argon_utils.Frame.Reader.{Event, push, new}
use argon_utils.Frame.Refinement.{Holds}
use argon_utils.Frame.Stream.{feed, Outcome, list_of, resync, IsFrame, feed-frame_bytes}
use argon_utils.I2c.{Error, timeout}
use argon_utils.Serial
use argon_utils.Serial.{SerialLink, Reads, bytes, from_port}
use argon_utils.Serial.Matching.{returned}
use argon_utils.Serial.Replies.{request-answered, request-sends}
use argon_utils.Ups.{UpsLink}
use argon_utils.Simulator.{UpsSim, Served, serve, answer_event, reply, respond}
use argon_utils.Simulator.Faithful.{IsClean, respond-clean}

-- What is made of the outcomes of a reader.
abbrev pub answers : UpsSim → ℕ → List Outcome → UpsSim × List ℕ
answers sim now [] = (sim, [])
answers sim now (err _ ∷ outcomes) = answers sim now outcomes
answers sim now (ok request ∷ outcomes) =
    let (sim', wire) = respond sim now request in
    let (last, more) = answers sim' now outcomes in (last, wire ++ more)

event-answers :
    (sim : UpsSim) (now : ℕ) (event : Event) (outcomes : List Outcome) (x : UpsSim × List ℕ)
    → x ≡ answers (answer_event sim now event).0 now outcomes
    → (x.0, (answer_event sim now event).1 ++ x.1) ≡ answers sim now (list_of event outcomes)
event-answers sim now none outcomes x e = e
event-answers sim now (some (err _)) outcomes x e = e
event-answers sim now (some (ok request)) outcomes x e =
    ap (λ y. (y.0, (respond sim now request).1 ++ y.1)) e

serve-answers :
    (sent : List ℕ) (s : Served) (now : ℕ)
    → ((serve s now sent).0.sim, (serve s now sent).1) ≡ answers s.sim now (feed s.reader sent)
unfolding serve feed
serve-answers [] s now = refl
serve-answers (b ∷ sent) s now =
    let (reader, event) = push s.reader b in
    let next : Served = record { sim = (answer_event s.sim now event).0; reader = reader } in
    event-answers s.sim now event (feed reader sent)
      ((serve next now sent).0.sim, (serve next now sent).1) (serve-answers sent next now)

answers-resync :
    (sim : UpsSim) (now dropped : ℕ) (outcomes : List Outcome)
    → answers sim now (resync dropped ++ outcomes) ≡ answers sim now outcomes
answers-resync sim now dropped outcomes = elim (Bool-cases (ltb 0 dropped)) [
  | inl e ↦ rw e refl
  | inr e ↦ rw e refl
]

-- The simulator's answer to the bytes of one frame.
serve-frame :
    (s : Served) (now : ℕ) (f : Frame)
    → Holds s.reader []
    → IsFrame f
    → ((serve s now (frame_bytes f)).0.sim, (serve s now (frame_bytes f)).1) ≡ respond s.sim now f
serve-frame s now f h v =
    let (sim', wire) = respond s.sim now f in
    serve-answers (frame_bytes f) s now
    ∙ ap (λ b. answers s.sim now (feed s.reader b)) (sym (append-nil (frame_bytes f)))
    ∙ ap (answers s.sim now) (feed-frame_bytes s.reader f [] h v tt)
    ∙ answers-resync s.sim now s.reader.dropped (ok f ∷ feed new [])
    ∙ unfold feed in ap (λ b. (sim', b)) (append-nil wire)

-- A request that waits on has its deadline pass.
abbrev pub answered : Option (SerialLink × Result Frame Error) → Result Frame Error
answered none = err timeout
answered (some (link, r)) = r

-- The driver's link over a serial line to the simulator, for one request at a time: the bytes that the
-- driver sends are what the simulator reads, and what the simulator writes, at `now`, arrives in one
-- read; where that is no answer, the deadline passes.
unfoldable pub wired : ℕ → UpsLink Served
wired now = record {
  request = λ s cmd payload deadline.
      let sent = (Serial.request (as_byte cmd) payload deadline (ok tt) from_port []).0 in
      let (s', wire) = serve s now sent in
      let reads : Reads = (now, bytes wire) ∷ [] in
      (s', answered (Serial.request (as_byte cmd) payload deadline (ok tt) from_port reads).1);
}

returned-answered :
    (x : Option (SerialLink × Result Frame Error)) (f : Frame)
    → returned x ≡ some (ok f)
    → answered x ≡ ok f
returned-answered none f e = cc
returned-answered (some (link, r)) f e = cc

-- What comes back of a frame that is written at once, before the deadline.
answered-frame :
    (cmd : ℕ) (payload : List ℕ) (now deadline : ℕ) (f : Frame)
    → now < deadline
    → length payload ≤ 255
    → IsFrame f
    → f.cmd ≡ cmd
    → let reads : Reads = (now, bytes (frame_bytes f)) ∷ [] in
      answered (Serial.request cmd payload deadline (ok tt) from_port reads).1 ≡ ok f
answered-frame cmd payload now deadline f before l v e =
    let reads : Reads = (now, bytes (frame_bytes f)) ∷ [] in
    returned-answered (Serial.request cmd payload deadline (ok tt) from_port reads).1 f
      (request-answered cmd payload deadline from_port reads [] f [] refl l (before, tt) refl tt tt
        v e tt).1

-- A request of the driver over the serial line, before the deadline, to a simulator that is between
-- frames and answers without junk or corruption: from the bytes that the driver sends the simulator
-- comes to be as it is after its reply to that command with that payload, with one more response
-- counted, and the driver gets the frame with its command and the payload of that reply.
pub wired-reply :
    (s : Served) (now : ℕ) (cmd : Command) (payload : List ℕ) (deadline : ℕ)
    → IsClean s.sim
    → Holds s.reader []
    → now < deadline
    → IsFrame (record { cmd = as_byte cmd; payload = payload })
    → IsFrame (record { cmd = as_byte cmd; payload = (reply s.sim now cmd payload).1 })
    → let (sim', answer) = reply s.sim now cmd payload in
      let (s', got) = (wired now).request s cmd payload deadline in
      (s'.sim ≡ record sim' { responses = sim'.responses + 1 })
      × (got ≡ ok (record { cmd = as_byte cmd; payload = answer }))
unfolding wired
wired-reply s now cmd payload deadline c h before q v =
    let request : Frame = record { cmd = as_byte cmd; payload = payload } in
    let f : Frame = record { cmd = as_byte cmd; payload = (reply s.sim now cmd payload).1 } in
    let sends = request-sends (as_byte cmd) payload deadline from_port [] q.fits in
    let served = serve-frame s now request h q ∙ respond-clean s.sim now cmd payload c v.fits in
    rw sends (
      ap (λ x. x.0) served,
      ap
            (λ x.
              answered
                (Serial.request (as_byte cmd) payload deadline (ok tt) from_port
                  ((now, bytes x.1) ∷ [])).1)
            served
          ∙ answered-frame (as_byte cmd) payload now deadline f before q.fits v refl,
    )
