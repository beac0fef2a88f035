-- ===== src/Notice/Examples.antt =====
-- A poweroff that is announced, and the theorem at it.
use argon_utils.Prelude.{ℕ, ◌≡◌, ◌↔◌, refl, true, none, some, [], ◌∷◌, String}
use argon_utils.Notice.{
  nothing, poweroff, cannot_tell, is_close, close, observe, normal, critical, new,
}
use argon_utils.Notice.Once.{Sights, notices, watch, AllQuiet, AllSame, noticed_once}

abbrev at_noon : ℕ → String
at_noon t = "12:00"

abbrev pressed : String
pressed = "pressed"

-- Seen at 100 s, then not readable, then 30 s later than it was.
abbrev again : Sights
again = (cannot_tell, none) ∷ (poweroff 130_000_000_000 none, none) ∷ []

announced :
    (observe at_noon pressed new (poweroff 100_000_000_000 none) none).1
    ≡ some (record {
      urgency = critical;
      text = "A poweroff is scheduled for 12:00. Cancel it with `shutdown -c`.";
    })
unfolding observe
announced = refl

again-AllSame : AllSame 100_000_000_000 again
unfolding close
again-AllSame = (refl, tt)

noticed_once_example :
    let (w', n) = observe at_noon pressed new (poweroff 100_000_000_000 none) none in
    let (w'', gone) = observe at_noon pressed (watch at_noon pressed w' again) nothing none in
    ((n ≡ none) ↔ (is_close none 100_000_000_000 ≡ true))
    × AllQuiet at_noon pressed (notices at_noon pressed w' again)
    × (gone ≡ some (record { urgency = normal; text = "The scheduled poweroff was cancelled." }))
    × (w'' ≡ new)
noticed_once_example =
    noticed_once at_noon pressed new 100_000_000_000 none none none again refl again-AllSame
