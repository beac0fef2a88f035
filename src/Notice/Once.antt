-- ===== src/Notice/Once.antt =====
-- Each poweroff is announced once.
use argon_utils.Prelude.{
  ℕ, ◌∙◌, sym, subst, ◌↔◌, ◌≡◌, refl, true, false, Option, none, some, List, [], ◌∷◌, String, arith,
  ap,
}
use argon_utils.Notice.{
  Notice, Seen, nothing, poweroff, cannot_tell, ShutdownWatcher, close, is_close, observe, normal,
  new,
}

-- What is seen, each with the time of the poweroff that the UPS's own notices announced.
abbrev pub Sights : Type 0
Sights = List (Seen × Option ℕ)

-- Nothing but reads that fail, and the poweroff at `t` again, give or take the tolerance.
abbrev pub AllSame : ℕ → Sights → Type 0
AllSame t [] = Unit {0}
AllSame t ((nothing, _) ∷ rest) = ⊥
AllSame t ((cannot_tell, _) ∷ rest) = AllSame t rest
AllSame t ((poweroff s _, _) ∷ rest) = (close t s ≡ true) × AllSame t rest

module _ (hhmm : ℕ → String) (button_message : String) where
  -- The notices of a run.
  unfoldable pub notices : ShutdownWatcher → Sights → List (Option Notice)
  notices w [] = []
  notices w ((seen, ups) ∷ rest) =
      let (w', n) = observe hhmm button_message w seen ups in n ∷ notices w' rest

  unfoldable pub watch : ShutdownWatcher → Sights → ShutdownWatcher
  watch w [] = w
  watch w ((seen, ups) ∷ rest) = watch (observe hhmm button_message w seen ups).0 rest

  abbrev pub AllQuiet : List (Option Notice) → Type 0
  AllQuiet [] = Unit {0}
  AllQuiet (n ∷ ns) = (n ≡ none) × AllQuiet ns

  known_is_quiet :
      (t : ℕ) (rest : Sights)
      → AllSame t rest
      → AllQuiet (notices (record { known = some t }) rest)
        × (watch (record { known = some t }) rest ≡ record { known = some t })
  unfolding notices watch observe
  known_is_quiet t [] s = (tt, refl)
  known_is_quiet t ((nothing, ups) ∷ rest) s = absurd s
  known_is_quiet t ((cannot_tell, ups) ∷ rest) s =
      let (q, e) = known_is_quiet t rest s in ((refl, q), e)
  known_is_quiet t ((poweroff u m, ups) ∷ rest) (c, s) =
      let (q, e) = known_is_quiet t rest s in
      let step : observe hhmm button_message (record { known = some t }) (poweroff u m) ups
          ≡ (record { known = some t }, none) =
        ground arith in
      (
        (ap (λ x. x.1) step, subst (λ x. AllQuiet (notices x.0 rest)) (sym step) q),
        ap (λ x. watch x.0 rest) step ∙ e,
      )

  -- A poweroff that is new to the watcher is announced at once, unless the UPS's notices did, and then
  -- not again through any run that sees the same one, or cannot tell; when it is gone, that is
  -- announced, also where the poweroff was left to the UPS's notices, and the watcher is as new.
  pub noticed_once :
      (w : ShutdownWatcher) (t : ℕ) (m : Option String) (ups later : Option ℕ) (rest : Sights)
      → is_close w.known t ≡ false
      → AllSame t rest
      → let (w', n) = observe hhmm button_message w (poweroff t m) ups in
        let (w'', gone) = observe hhmm button_message (watch w' rest) nothing later in
        ((n ≡ none) ↔ (is_close ups t ≡ true))
        × AllQuiet (notices w' rest)
        × (gone
            ≡ some (record { urgency = normal; text = "The scheduled poweroff was cancelled." }))
        × (w'' ≡ new)
  unfolding observe
  noticed_once w t m ups later rest fresh s =
      let w' = (observe hhmm button_message w (poweroff t m) ups).0 in
      let known : w' ≡ record { known = some t } = ground arith in
      let (q, e) = known_is_quiet t rest s in
      let e' = ap (λ x. watch x rest) known ∙ e in
      (
        ((λ h. ground arith), (λ h. ground arith)),
        subst (λ x. AllQuiet (notices x rest)) (sym known) q,
        ap (λ x. (observe hhmm button_message x nothing later).1) e',
        ap (λ x. (observe hhmm button_message x nothing later).0) e',
      )
