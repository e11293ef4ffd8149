-- ===== src/Context/Registry/Effects.antt =====
-- What the stop of one child does to the registry.
use shoc.Base.{
  ℕ, ◌≡◌, refl, Bool, true, false, ◌&&◌, [], ◌∷◌, ◌++◌, arith, ◌==◌, if◌then◌else◌, remove,
}
use shoc.Doca.{CtxState}
use shoc.Context.Registry.{
  StopAnswer, at_once, in_time, refused, Registry, child_changed, answered, stop_child,
}

abbrev pub is_at_once : StopAnswer → Bool
is_at_once at_once = true
is_at_once _ = false

pub idle-active :
    (c : ℕ) (w : Registry) → (child_changed CtxState.idle c w).active ≡ remove c w.active
unfolding child_changed
idle-active c w = ground arith

idle-handle :
    (c a : ℕ) (w : Registry)
    → ((child_changed CtxState.idle c w).contexts a).has_handle
      ≡ (if c == a then false else (w.contexts a).has_handle)
unfolding child_changed
idle-handle c a w = ground arith

idle-asked : (c : ℕ) (w : Registry) → (child_changed CtxState.idle c w).asked ≡ w.asked
unfolding child_changed
idle-asked c w = ground arith

stopping-handle :
    (c a : ℕ) (w : Registry)
    → ((child_changed CtxState.stopping c w).contexts a).has_handle ≡ (w.contexts a).has_handle
unfolding child_changed
stopping-handle c a w = ground arith

-- A child that has its handle is asked to stop, and leaves the registry if it is idle at once.
pub stop_child-effects :
    (answer : ℕ → StopAnswer) (c : ℕ) (w : Registry)
    → (w.contexts c).has_handle ≡ true
    → ((stop_child answer c w).active
        ≡ (if is_at_once (answer c) then remove c w.active else w.active))
      × ((stop_child answer c w).asked ≡ w.asked ++ c ∷ [])
      × ((a : ℕ)
          → ((stop_child answer c w).contexts a).has_handle
            ≡ (if c == a && is_at_once (answer c) then false else (w.contexts a).has_handle))
unfolding stop_child
stop_child-effects answer c w h = rw h (go (answer c))
  where
    w' : Registry
    w' = record w { asked = w.asked ++ c ∷ [] }

    go :
        (an : StopAnswer)
        → ((answered an c w').active ≡ (if is_at_once an then remove c w.active else w.active))
          × ((answered an c w').asked ≡ w.asked ++ c ∷ [])
          × ((a : ℕ)
              → ((answered an c w').contexts a).has_handle
                ≡ (if c == a && is_at_once an then false else (w.contexts a).has_handle))
    go at_once = (idle-active c w', idle-asked c w', λ a. ground (arith, idle-handle c a w'))
    go in_time = (refl, refl, λ a. ground (arith, stopping-handle c a w'))
    go (refused e) = (refl, refl, λ a. ground arith)

-- A child that has no handle any more is left alone.
pub stop_child_without_handle :
    (answer : ℕ → StopAnswer) (c : ℕ) (w : Registry)
    → (w.contexts c).has_handle ≡ false
    → stop_child answer c w ≡ w
unfolding stop_child
stop_child_without_handle answer c w h = rw h
