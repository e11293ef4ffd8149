-- ===== src/DevemuPci.antt =====
-- Emulated PCI devices (shoc/devemu_pci.hpp, shoc/devemu_pci.cpp): a device that is plugged in and out
-- while coroutines wait for it. Its type is in a child module.
pub mod PciType
pub mod Hotplug
mod Tests
use shoc.Base.{
  ℕ, suc, Bool, true, false, Option, none, some, List, [], ◌∷◌, ◌==◌, if◌then◌else◌, contains,
}
use shoc.Doca.{DocaError, bad_state, is_success}
use shoc.Error.{
  Exception, Outcome, ok, throws, terminates, undefined, doca_exception, ◌>>=◌, ◌>>◌,
  enforce_success,
}
use shoc.Coro.{Receptable, create_empty, set_value}
use shoc.AccepterQueues.{update}

-- `doca_devemu_pci_hotplug_state`
pub data HotplugState : Type 0 where
  power_off hot_plug_in_progress power_on hot_unplug_in_progress : HotplugState

pub record PciDev : Type 0 where
  -- the receptables that the device points to
  pub hot_plug_waiter : Option ℕ
  pub hot_unplug_waiter : Option ℕ
  -- the receptables, the next address, and the receptables whose awaitable is destroyed
  pub cells : ℕ → Receptable HotplugState
  pub next : ℕ
  pub freed : List ℕ
  -- the coroutines that were resumed, the writes to freed receptables, and the errors that were logged
  pub resumed : List ℕ
  pub writes_to_freed : ℕ
  pub logged : ℕ

unfoldable pub new_dev : PciDev
unfolding create_empty
new_dev = record {
  hot_plug_waiter = none;
  hot_unplug_waiter = none;
  cells = λ _. create_empty;
  next = 0;
  freed = [];
  resumed = [];
  writes_to_freed = 0;
  logged = 0;
}

-- `pci_dev::hotplug_state`: what DOCA answers, and the state that it writes.
unfoldable pub hotplug_state : DocaError → HotplugState → Outcome HotplugState
unfolding enforce_success
hotplug_state answer state = do enforce_success answer; ok state

-- `waiter->set_value(std::move(hp_state))`, for a waiter that is not null
unfoldable pub notify : Option ℕ → HotplugState → PciDev → PciDev
unfolding set_value
notify none state d = d
notify (some a) state d = record d {
  cells = update d.cells a (set_value state (d.cells a));
  writes_to_freed = if contains a d.freed then suc d.writes_to_freed else d.writes_to_freed;
}

report : Outcome HotplugState → PciDev → PciDev
unfolding notify
report (ok power_off) d = notify d.hot_unplug_waiter power_off d
report (ok power_on) d = notify d.hot_plug_waiter power_on d
report (ok hot_plug_in_progress) d = d
report (ok hot_unplug_in_progress) d = d
report (throws e) d = record d { logged = suc d.logged }
report terminates d = d
report undefined d = d

-- `pci_dev::hotplug_state_changed_callback`: a `doca_exception` is logged.
unfoldable pub hotplug_state_changed_callback : DocaError → HotplugState → PciDev → PciDev
unfolding report hotplug_state
hotplug_state_changed_callback answer state d = report (hotplug_state answer state) d

-- The guard: no receptable is pointed to.
abbrev pub unless_waiting : Option ℕ → Outcome ℕ × PciDev → PciDev → Outcome ℕ × PciDev
unless_waiting none asked d = asked
unless_waiting (some a) asked d = (throws (doca_exception bad_state), d)

-- What follows the guard.
unfoldable pub ask_hotplug : DocaError → PciDev → Outcome ℕ × PciDev
unfolding create_empty
ask_hotplug answer d =
    if is_success answer
    then (
      ok d.next,
      record d {
        cells = update d.cells d.next create_empty;
        next = suc d.next;
        hot_plug_waiter = some d.next;
      },
    )
    else (
      throws (doca_exception answer),
      record d {
        cells = update d.cells d.next create_empty;
        next = suc d.next;
        freed = d.next ∷ d.freed;
      },
    )

-- `pci_dev::hotplug`: the address of the awaitable's receptable. Where DOCA refuses, the new awaitable
-- is destroyed.
unfoldable pub hotplug : DocaError → PciDev → Outcome ℕ × PciDev
unfolding ask_hotplug
hotplug answer d = unless_waiting d.hot_plug_waiter (ask_hotplug answer d) d

-- What follows the guard.
unfoldable pub ask_hotunplug : DocaError → PciDev → Outcome ℕ × PciDev
unfolding create_empty
ask_hotunplug answer d =
    if is_success answer
    then (
      ok d.next,
      record d {
        cells = update d.cells d.next create_empty;
        next = suc d.next;
        hot_unplug_waiter = some d.next;
      },
    )
    else (
      throws (doca_exception answer),
      record d {
        cells = update d.cells d.next create_empty;
        next = suc d.next;
        freed = d.next ∷ d.freed;
      },
    )

-- `pci_dev::hotunplug`
unfoldable pub hotunplug : DocaError → PciDev → Outcome ℕ × PciDev
unfolding ask_hotunplug
hotunplug answer d = unless_waiting d.hot_unplug_waiter (ask_hotunplug answer d) d

-- The registration of the callback by the constructor, behind the construction of the context.
unfoldable pub construct_dev : DocaError → Outcome PciDev
unfolding enforce_success new_dev
construct_dev registered = do enforce_success registered; ok new_dev
