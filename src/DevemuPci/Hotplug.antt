-- ===== src/DevemuPci/Hotplug.antt =====
-- What becomes of the coroutines that wait for a hot-plug (shoc/devemu_pci.cpp).
use shoc.Base.{
  ℕ, ◌≡◌, refl, ap, ◌∙◌, ==_refl, Option, none, some, List, [], ◌∷◌, Bool-cases, inl, inr,
}
use shoc.Coro.{payload, set_value}
use shoc.Doca.{DocaError, DocaError-discrete, success, bad_state, is_success}
use shoc.Error.{
  Outcome, ok, throws, terminates, undefined, doca_exception, enforce_success, enforce_success_as,
  enforce,
}
use shoc.AccepterQueues.{update}
use shoc.DevemuPci.{
  HotplugState, power_off, power_on, hot_plug_in_progress, hot_unplug_in_progress, PciDev, notify,
  report, hotplug_state, hotplug_state_changed_callback, unless_waiting, ask_hotplug, ask_hotunplug,
  hotplug, hotunplug,
}

-- A call, a report of DOCA, a coroutine that suspends on a receptable, or an awaitable that is destroyed.
pub data Event : Type 0 where
  plugs unplugs : DocaError → Event
  changes : DocaError → HotplugState → Event
  waits : ℕ → ℕ → Event
  drops : ℕ → Event

unfoldable pub step : Event → PciDev → PciDev
unfolding hotplug hotunplug hotplug_state_changed_callback
step (plugs answer) d = (hotplug answer d).1
step (unplugs answer) d = (hotunplug answer d).1
step (changes answer state) d = hotplug_state_changed_callback answer state d
step (waits h a) d = record d { cells = update d.cells a (record (d.cells a) { waiter_ = some h }) }
step (drops a) d = record d { freed = a ∷ d.freed }

unfoldable pub run : List Event → PciDev → PciDev
unfolding step
run [] d = d
run (e ∷ es) d = run es (step e d)

-- The device points to `a` for a hot-plug, and `resumed` were resumed.
record Plugged (a : ℕ) (resumed : List ℕ) (d : PciDev) : Type 0 where
  waiting : d.hot_plug_waiter ≡ some a
  unchanged : d.resumed ≡ resumed

module _ (a : ℕ) (resumed : List ℕ) where
  notify-Plugged :
      (o : Option ℕ) (state : HotplugState) (d : PciDev)
      → Plugged a resumed d
      → Plugged a resumed (notify o state d)
  unfolding notify
  notify-Plugged none state d p = p
  notify-Plugged (some b) state d p = record { waiting = p.waiting; unchanged = p.unchanged }

  report-Plugged :
      (o : Outcome HotplugState) (d : PciDev) → Plugged a resumed d → Plugged a resumed (report o d)
  unfolding report
  report-Plugged (ok power_off) d p = notify-Plugged _ power_off d p
  report-Plugged (ok power_on) d p = notify-Plugged _ power_on d p
  report-Plugged (ok hot_plug_in_progress) d p = p
  report-Plugged (ok hot_unplug_in_progress) d p = p
  report-Plugged (throws e) d p = record { waiting = p.waiting; unchanged = p.unchanged }
  report-Plugged terminates d p = p
  report-Plugged undefined d p = p

  ask-Plugged :
      (answer : DocaError) (d : PciDev)
      → Plugged a resumed d
      → Plugged a resumed (ask_hotunplug answer d).1
  unfolding ask_hotunplug
  ask-Plugged answer d p = elim (Bool-cases (is_success answer)) [
    | inl e ↦ rw (e, ask_hotunplug) (record { waiting = p.waiting; unchanged = p.unchanged })
    | inr e ↦ rw (e, ask_hotunplug) (record { waiting = p.waiting; unchanged = p.unchanged })
  ]

  unless_waiting-Plugged :
      (o : Option ℕ) (asked : Outcome ℕ × PciDev) (d : PciDev)
      → Plugged a resumed d
      → Plugged a resumed asked.1
      → Plugged a resumed (unless_waiting o asked d).1
  unless_waiting-Plugged none asked d p q = q
  unless_waiting-Plugged (some b) asked d p q = p

  hotunplug-Plugged :
      (answer : DocaError) (d : PciDev)
      → Plugged a resumed d
      → Plugged a resumed (hotunplug answer d).1
  unfolding hotunplug
  hotunplug-Plugged answer d p =
      unless_waiting-Plugged d.hot_unplug_waiter _ d p (ask-Plugged answer d p)

  hotplug-Plugged :
      (answer : DocaError) (d : PciDev)
      → Plugged a resumed d
      → Plugged a resumed (hotplug answer d).1
  unfolding hotplug
  hotplug-Plugged answer d p =
      let refused = ap (λ o. unless_waiting o (ask_hotplug answer d) d) p.waiting in
      rw (ap (λ (r : Outcome ℕ × PciDev). r.1) refused) p

  step-Plugged : (e : Event) (d : PciDev) → Plugged a resumed d → Plugged a resumed (step e d)
  unfolding step hotplug_state_changed_callback
  step-Plugged (plugs answer) d p = hotplug-Plugged answer d p
  step-Plugged (unplugs answer) d p = hotunplug-Plugged answer d p
  step-Plugged (changes answer state) d p = report-Plugged (hotplug_state answer state) d p
  step-Plugged (waits h b) d p = record { waiting = p.waiting; unchanged = p.unchanged }
  step-Plugged (drops b) d p = record { waiting = p.waiting; unchanged = p.unchanged }

  run-Plugged : (es : List Event) (d : PciDev) → Plugged a resumed d → Plugged a resumed (run es d)
  unfolding run
  run-Plugged [] d p = p
  run-Plugged (e ∷ es) d p = run-Plugged es (step e d) (step-Plugged e d p)

reported :
    (a : ℕ) (d : PciDev)
    → d.hot_plug_waiter ≡ some a
    → ((step (changes success power_on) d).cells a).value_ ≡ payload power_on
unfolding step hotplug_state_changed_callback hotplug_state enforce_success enforce_success_as
    enforce DocaError-discrete report notify set_value
reported a d e = ap (λ o. ((notify o power_on d).cells a).value_) e ∙ rw (==_refl a) refl

-- Once a hot-plug has been asked for, whatever happens to the device: a report that it is powered on
-- puts that state in the receptable of the hot-plug, but the coroutine that waits for it is not resumed,
-- nor is any other. Every later call of `hotplug` throws `DOCA_ERROR_BAD_STATE` and changes nothing,
-- also after the device was plugged in, and out again.
pub hotplug_only_once :
    (a : ℕ) (d : PciDev) (es : List Event) (answer : DocaError)
    → d.hot_plug_waiter ≡ some a
    → (((step (changes success power_on) (run es d)).cells a).value_ ≡ payload power_on)
      × ((step (changes success power_on) (run es d)).resumed ≡ d.resumed)
      × ((run es d).resumed ≡ d.resumed)
      × (hotplug answer (run es d) ≡ (throws (doca_exception bad_state), run es d))
unfolding hotplug
hotplug_only_once a d es answer e =
    let p = run-Plugged a d.resumed es d (record { waiting = e; unchanged = refl }) in
    (
      reported a (run es d) p.waiting,
      (step-Plugged a d.resumed (changes success power_on) (run es d) p).unchanged,
      p.unchanged,
      ap (λ o. unless_waiting o (ask_hotplug answer (run es d)) (run es d)) p.waiting,
    )
