-- ===== src/Simulator/Examples.antt =====
-- A battery query to the simulator over the wire.
use argon_utils.Prelude.{◌≡◌, refl, [], ◌∷◌, ok, arith}
use argon_utils.Command.{battery_status, as_byte}
use argon_utils.Frame.Reader
use argon_utils.Frame.Refinement.{new-Holds}
use argon_utils.Simulator.{UpsSim, with_faults, default_state, no_faults, reply, Served}
use argon_utils.Simulator.Faithful.{IsClean}
use argon_utils.Simulator.Wire.{wired, wired-reply}

abbrev sim : UpsSim
sim = with_faults default_state no_faults 0

sim-IsClean : IsClean sim
sim-IsClean = record { speaks = refl; no_junk = refl; whole = refl }

abbrev served : Served
served = record { sim = sim; reader = Reader.new }

wired-reply_example :
    let (s', got) = (wired 3).request served battery_status [] 9 in
    (s'.sim ≡ record sim { responses = 1 }) × (got ≡ ok (record { cmd = 0; payload = 93 ∷ 0 ∷ [] }))
unfolding reply as_byte
wired-reply_example =
    wired-reply served 3 battery_status [] 9 sim-IsClean new-Holds (omega arith)
      (record { cmd_byte = omega arith; payload_bytes = tt; fits = omega arith })
      (record { cmd_byte = omega arith; payload_bytes = omega arith; fits = omega arith })
