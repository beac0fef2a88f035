-- ===== src/Lid/Environment.antt =====
-- The radios and the CPU under the lid's effects: what a power-saving close took, an open gives back.
use argon_utils.Prelude.{
  ℕ, ◌≡◌, ◌≢◌, ◌∙◌, ap, ◌⊎◌, inl, refl, not, Bool, true, false, Option, none, some, List, [], ◌∷◌,
  arith,
}
use argon_utils.Lid.{
  Lid, LidConfig, Saving, Effect, screen_off, screen_on, radios_restore, cpu_cap, shutdown_alert,
  shutdown_cancelled, power_off, new, report, tick, restore_all, on_close, on_open, undo,
}

-- What happens to the lid: a report of the switch, a look at the clock, or the end of the service.
pub data Op : Type 0 where
  reported : Bool → ℕ → Op
  ticked : ℕ → Op
  restored : Op

unfoldable pub step : Lid → Op → Lid × List Effect
step lid (reported closed now) = report lid closed now
step lid (ticked now) = tick lid now
step lid restored = restore_all lid

pub record Env : Type 0 where
  pub radios_off : Bool
  pub cpu_capped : Bool

abbrev pub untouched : Env
untouched = record { radios_off = false; cpu_capped = false }

abbrev pub apply : Env → Effect → Env
apply env screen_off = env
apply env screen_on = env
apply env Effect.radios_off = record env { radios_off = true }
apply env radios_restore = record env { radios_off = false }
apply env (cpu_cap capped) = record env { cpu_capped = capped }
apply env (shutdown_alert _) = env
apply env shutdown_cancelled = env
apply env power_off = env

unfoldable pub apply_all : Env → List Effect → Env
apply_all env [] = env
apply_all env (e ∷ es) = apply_all (apply env e) es

unfoldable pub run : Lid → Env → List Op → Lid × Env
run lid env [] = (lid, env)
run lid env (op ∷ ops) = let (lid', es) = step lid op in run lid' (apply_all env es) ops

-- The environment is what the lid has on record, and a lid that is not closed has nothing on it.
abbrev taken : Option Saving → Env
taken none = untouched
taken (some s) = record { radios_off = s.radios; cpu_capped = s.cpu }

abbrev OnlyClosed : Lid → Type 0
OnlyClosed lid = (lid.saving ≡ none) ⊎ (lid.closed ≡ some true)

step-OnlyClosed : (lid : Lid) (op : Op) → OnlyClosed lid → OnlyClosed (step lid op).0
unfolding step report tick restore_all on_close on_open
step-OnlyClosed lid (reported closed now) c = ground arith
step-OnlyClosed lid (ticked now) c = ground arith
step-OnlyClosed lid restored c = ground arith

undo-untouched : (s : Saving) → apply_all (taken (some s)) (undo s) ≡ untouched
unfolding undo apply_all
undo-untouched s = ground arith

step-taken :
    (lid : Lid) (op : Op)
    → OnlyClosed lid
    → apply_all (taken lid.saving) (step lid op).1 ≡ taken (step lid op).0.saving
unfolding step report tick restore_all on_close on_open apply_all undo
step-taken lid (reported closed now) c = ground arith
step-taken lid (ticked now) c = ground arith
step-taken lid restored c = ground arith

run-OnlyClosed :
    (lid : Lid) (env : Env) (ops : List Op) → OnlyClosed lid → OnlyClosed (run lid env ops).0
unfolding run
run-OnlyClosed lid env [] c = c
run-OnlyClosed lid env (op ∷ ops) c =
    run-OnlyClosed (step lid op).0 (apply_all env (step lid op).1) ops (step-OnlyClosed lid op c)

run-taken :
    (lid : Lid) (env : Env) (ops : List Op)
    → OnlyClosed lid
    → env ≡ taken lid.saving
    → let (lid', env') = run lid env ops in env' ≡ taken lid'.saving
unfolding run
run-taken lid env [] c e = e
run-taken lid env (op ∷ ops) c e =
    run-taken (step lid op).0 (apply_all env (step lid op).1) ops (step-OnlyClosed lid op c)
      (ap (λ x. apply_all x (step lid op).1) e ∙ step-taken lid op c)

-- After any run of reports, ticks and restorations from a new lid, the radios are off or the CPU is
-- capped only while the lid is closed.
pub taken_only_when_closed :
    (config : LidConfig) (ops : List Op)
    → (run (new config) untouched ops).0.closed ≢ some true
    → (run (new config) untouched ops).1 ≡ untouched
unfolding new
taken_only_when_closed config ops h =
    let c = run-OnlyClosed (new config) untouched ops (inl refl) in
    let t = run-taken (new config) untouched ops (inl refl) refl in ground arith

abbrev pub ends : Op → Bool
ends (reported closed _) = not closed
ends (ticked _) = false
ends restored = true

step-ends :
    (lid : Lid) (op : Op)
    → ends op ≡ true
    → OnlyClosed lid
    → apply_all (taken lid.saving) (step lid op).1 ≡ untouched
unfolding step report restore_all on_open apply_all undo
step-ends lid (reported closed now) e c = ground arith
step-ends lid (ticked now) e c = ground arith
step-ends lid restored e c = ground arith

-- After any run of operations from a new lid, the end of the service and every report of an open
-- lid leave the radios on and the CPU uncapped.
pub lid_gives_back :
    (config : LidConfig) (ops : List Op) (op : Op)
    → ends op ≡ true
    → let (lid, env) = run (new config) untouched ops in apply_all env (step lid op).1 ≡ untouched
unfolding new
lid_gives_back config ops op e =
    let c = run-OnlyClosed (new config) untouched ops (inl refl) in
    let t = run-taken (new config) untouched ops (inl refl) refl in
    let lid = (run (new config) untouched ops).0 in
    ap (λ x. apply_all x (step lid op).1) t ∙ step-ends lid op e c
