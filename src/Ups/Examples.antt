-- ===== src/Ups/Examples.antt =====
-- A UPS that works, and the theorems at it.
use argon_utils.Prelude.{ℕ, ◌≡◌, refl, true, some, List, [], ◌∷◌, Result, ok, err, arith}
use argon_utils.Battery.{mains}
use argon_utils.Command.{Command, set_rtc, get_rtc, is_query}
use argon_utils.Frame.{Frame}
use argon_utils.I2c.{Error, timeout}
use argon_utils.Ups.{UpsLink, no_writes, allows, gate, set_clock}
use argon_utils.Ups.Gated.{calls, gated_keeps, Remembers, put_clock, get_battery}
use argon_utils.Ups.Watching.{Readings}
use argon_utils.UpsTime.{UpsTime, encode_clock}
use argon_utils.Bcd

-- The bytes of the clock of a UPS that keeps them, and answers nothing else.
abbrev Memory : Type 0
Memory = List ℕ

abbrev answer : Memory → Command → List ℕ → Memory × Result Frame Error
answer w set_rtc payload = (payload, ok (record { cmd = 3; payload = [] }))
answer w get_rtc payload = (w, ok (record { cmd = 5; payload = w }))
answer w _ payload = (w, err timeout)

abbrev memory : UpsLink Memory
memory = record { request = λ w cmd payload deadline. answer w cmd payload }

abbrev noon : UpsTime
noon = record { year = 2026; month = 9; day = 18; hour = 12; minute = 0; second = some 0 }

queries_change_nothing :
    (w : Memory) (cmd : Command) (payload : List ℕ) (deadline : ℕ)
    → allows no_writes cmd ≡ true
    → w ≡ 1 ∷ []
    → (memory.request w cmd payload deadline).0 ≡ 1 ∷ []
unfolding allows is_query
queries_change_nothing w cmd payload deadline a e = ground arith

gated_keeps_example :
    calls (gate memory no_writes) (1 ∷ []) ((put_clock noon, 0) ∷ (get_battery, 1) ∷ []) ≡ 1 ∷ []
gated_keeps_example =
    gated_keeps memory no_writes (λ w. w ≡ 1 ∷ []) queries_change_nothing (1 ∷ [])
      ((put_clock noon, 0) ∷ (get_battery, 1) ∷ []) refl

memory-Remembers : Remembers memory
memory-Remembers w payload deadline later f e = (record { cmd = 5; payload = payload }, refl, refl)

noon_is_set : (set_clock memory [] noon 0).1 ≡ ok tt
unfolding set_clock encode_clock Bcd.encode
noon_is_set = refl

-- A reading, then two reads that failed.
abbrev two_failures : Readings
two_failures =
    (err timeout, 30) ∷ (err timeout, 20) ∷ (ok (record { percent = 80; source = mains }), 10) ∷ []
