-- ===== src/DevemuPci/Tests.antt =====
-- An instance of the theorem on hot-plugging, and runs.
use shoc.Base.{◌≡◌, refl, true, false, none, some, List, [], ◌∷◌}
use shoc.Doca.{DocaError-discrete, success, bad_state}
use shoc.Error.{throws, doca_exception, enforce_success, enforce_success_as, enforce}
use shoc.Coro.{payload}
use shoc.DevemuPci.{
  PciDev, power_on, power_off, new_dev, notify, report, hotplug_state,
  hotplug_state_changed_callback, hotplug, ask_hotplug,
}
use shoc.DevemuPci.Hotplug.{Event, plugs, changes, drops, step, run, hotplug_only_once}
use shoc.DevemuPci.PciType.{
  set_memory_bar_conf, call_of, doca_set_memory_bar_conf, stop, is_started,
}

-- A device that coroutine 4 waits for, at the receptable 0.
abbrev plugged : PciDev
plugged = record {
  hot_plug_waiter = some 0;
  hot_unplug_waiter = none;
  cells = λ a. record { value_ = payload power_off; waiter_ = some 4 };
  next = 1;
  freed = [];
  resumed = [];
  writes_to_freed = 0;
  logged = 0;
}

hotplug_only_once_example :
    (((step (changes success power_on) (run (changes success power_on ∷ []) plugged)).cells
        0).value_
      ≡ payload power_on)
    × ((step (changes success power_on) (run (changes success power_on ∷ []) plugged)).resumed ≡ [])
    × ((run (changes success power_on ∷ []) plugged).resumed ≡ [])
    × (hotplug success (run (changes success power_on ∷ []) plugged)
        ≡ (throws (doca_exception bad_state), run (changes success power_on ∷ []) plugged))
hotplug_only_once_example = hotplug_only_once 0 plugged (changes success power_on ∷ []) success refl

abbrev plugged_twice : List Event
plugged_twice = plugs success ∷ changes success power_on ∷ drops 0 ∷ changes success power_on ∷ []

-- A report after the awaitable is gone writes to where its receptable was.
late_report_writes : (run plugged_twice new_dev).writes_to_freed ≡ 1
unfolding run step hotplug ask_hotplug hotplug_state_changed_callback report hotplug_state notify
    new_dev enforce_success enforce_success_as enforce DocaError-discrete
late_report_writes = refl

prefetchable_is_one :
    call_of (set_memory_bar_conf 0 12 2 true)
    ≡ record { function = doca_set_memory_bar_conf; args = 0 ∷ 12 ∷ 2 ∷ 1 ∷ [] }
unfolding call_of
prefetchable_is_one = refl

stopped_type_is_left_alone : stop success 0 bad_state ≡ (false, success)
unfolding stop is_started
stopped_type_is_left_alone = refl
