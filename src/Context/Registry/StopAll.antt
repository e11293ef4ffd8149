-- ===== src/Context/Registry/StopAll.antt =====
-- What `stop_all` does to the children, and what is left once the rest of them are idle.
use shoc.Base.{
  ap, All, All-of_contains, ℕ, ◌≡◌, sym, ◌∙◌, true, false, not, ◌&&◌, List, [], ◌∷◌, ◌++◌, arith,
  ◌==◌, contains, Distinct, contains-remove, empty_of_contains, Bool-cases, inl, inr,
}
use mathlib.Core.List.{append_assoc, append-nil}
use shoc.Doca.{CtxState}
use shoc.Context.Registry.{StopAnswer, Registry, child_changed, stop_child, stop_each, stop_all}
use shoc.Context.Registry.Effects.{
  is_at_once, idle-active, stop_child-effects, stop_child_without_handle,
}

-- Each registered child has a handle, as a child has until it is idle.
abbrev pub HaveHandles : Registry → Type 0
HaveHandles w = (a : ℕ) → contains a w.active ≡ true → (w.contexts a).has_handle ≡ true

stop_child-HaveHandles :
    (answer : ℕ → StopAnswer) (c : ℕ) (w : Registry)
    → HaveHandles w
    → HaveHandles (stop_child answer c w)
stop_child-HaveHandles answer c w h a = elim (Bool-cases (w.contexts c).has_handle) [
  | inl e ↦ λ m. ground (
    arith,
    stop_child-effects answer c w e,
    (stop_child-effects answer c w e).2 a,
    contains-remove c a w.active,
    h a,
  )
  | inr e ↦ λ m. ground (arith, stop_child_without_handle answer c w e, h a)
]

stop_child-contains :
    (answer : ℕ → StopAnswer) (c a : ℕ) (w : Registry)
    → HaveHandles w
    → contains a (stop_child answer c w).active
      ≡ (contains a w.active && not (c == a && is_at_once (answer a)))
stop_child-contains answer c a w h = elim (Bool-cases (w.contexts c).has_handle) [
  | inl e ↦ ground (arith, stop_child-effects answer c w e, contains-remove c a w.active)
  | inr e ↦ ground (arith, stop_child_without_handle answer c w e, h c)
]

stop_each-contains :
    (answer : ℕ → StopAnswer) (cs : List ℕ) (w : Registry) (a : ℕ)
    → HaveHandles w
    → contains a (stop_each answer cs w).active
      ≡ (contains a w.active && not (contains a cs && is_at_once (answer a)))
unfolding stop_each
stop_each-contains answer [] w a h = ground arith
stop_each-contains answer (c ∷ cs) w a h = ground (
  arith,
  stop_each-contains answer cs (stop_child answer c w) a (stop_child-HaveHandles answer c w h),
  stop_child-contains answer c a w h,
)

-- The children that were there at the start are asked one after the other.
stop_each-asked :
    (answer : ℕ → StopAnswer) (cs : List ℕ) (w : Registry)
    → Distinct cs
    → All (λ c. (w.contexts c).has_handle ≡ true) cs
    → (stop_each answer cs w).asked ≡ w.asked ++ cs
unfolding stop_each
stop_each-asked answer [] w d h = sym (append-nil w.asked)
stop_each-asked answer (c ∷ cs) w d h =
    let (_, asked, handles) = stop_child-effects answer c w h.0 in
    stop_each-asked answer cs (stop_child answer c w) d.1 (go cs d.0 h.1)
    ∙ ap (λ (l : List ℕ). l ++ cs) asked
    ∙ append_assoc w.asked (c ∷ []) cs
  where
    go :
        (l : List ℕ)
        → contains c l ≡ false
        → All (λ b. (w.contexts b).has_handle ≡ true) l
        → All (λ b. ((stop_child answer c w).contexts b).has_handle ≡ true) l
    go [] n a = tt
    go (b ∷ l) n a =
        (ground (arith, (stop_child-effects answer c w h.0).2 b), go l (ground arith) a.1)

-- `stop_all` asks each registered child exactly once to stop, in order, whatever DOCA answers and
-- also when it refuses a stop, and exactly those children leave the registry at once that are idle
-- at once. The registered children are distinct and have their handles.
pub stop_all_asks_all :
    (answer : ℕ → StopAnswer) (w : Registry)
    → Distinct w.active
    → HaveHandles w
    → ((stop_all answer w).asked ≡ w.asked ++ w.active)
      × ((a : ℕ)
          → contains a (stop_all answer w).active
            ≡ (contains a w.active && not (is_at_once (answer a))))
unfolding stop_all
stop_all_asks_all answer w d h = (
  stop_each-asked answer w.active w d (All-of_contains w.active (λ a m. h a m)),
  λ a. ground (arith, stop_each-contains answer w.active w a h),
)

-- Later changes to idle, in the order in which DOCA reports them.
pub all_idle : List ℕ → Registry → Registry
all_idle [] w = w
all_idle (c ∷ cs) w = all_idle cs (child_changed CtxState.idle c w)

all_idle-contains :
    (cs : List ℕ) (w : Registry) (a : ℕ)
    → contains a (all_idle cs w).active ≡ (contains a w.active && not (contains a cs))
unfolding all_idle
all_idle-contains [] w a = ground arith
all_idle-contains (c ∷ cs) w a = ground (
  arith,
  all_idle-contains cs (child_changed CtxState.idle c w) a,
  idle-active c w,
  contains-remove c a w.active,
)

-- After `stop_all`, the registry is empty as soon as DOCA has reported every child as idle that was
-- not idle at once, in whatever order.
pub stop_all_empties :
    (answer : ℕ → StopAnswer) (w : Registry) (later : List ℕ)
    → HaveHandles w
    → ((a : ℕ)
        → contains a w.active ≡ true
        → is_at_once (answer a) ≡ false
        → contains a later ≡ true)
    → (all_idle later (stop_all answer w)).active ≡ []
unfolding stop_all
stop_all_empties answer w later h reported = empty_of_contains _ λ a. ground (
  arith,
  all_idle-contains later (stop_each answer w.active w) a,
  stop_each-contains answer w.active w a h,
  reported a,
)
