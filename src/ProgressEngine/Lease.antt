-- ===== src/ProgressEngine/Lease.antt =====
-- Leases on progress engines (`progress_engine_lease`), and the count of fibers that an engine keeps
-- by them (`register_fiber`, `deregister_fiber`). A lease is a variable with a pointer to an engine;
-- the variables stand in a list, and a call that names no variable does nothing.
pub mod Counting
use shoc.Base.{
  ℕ, zero, suc, ◌+◌, ◌-◌, ◌≤◌, ◌<◌, ◌≡◌, refl, Bool, true, false, ◌&&◌, not, Option, none, some,
  List, [], ◌∷◌, ◌++◌, arith, ◌==◌, ltb, if◌then◌else◌, length, get_elem?, set,
}

pub record Leases : Type 0 where
  pub leases : List (Option ℕ)
  -- `registered_fibers_` of each engine
  pub fibers : ℕ → ℕ
  -- the errors that were logged, and the engines whose notifier was cancelled
  pub errors : ℕ
  pub cancelled : List ℕ

pub register_fiber : ℕ → Leases → Leases
register_fiber e s = record s { fibers = λ k. if e == k then suc (s.fibers k) else s.fibers k }

-- `engine_->register_fiber()`, if there is an engine
pub register_if : Option ℕ → Leases → Leases
unfolding register_fiber
register_if none s = s
register_if (some e) s = register_fiber e s

abbrev pub same_engine : Option ℕ → Option ℕ → Bool
same_engine none none = true
same_engine (some a) (some b) = a == b
same_engine _ _ = false

abbrev pub put : ℕ → Option ℕ → Leases → Leases
put i v s = record s { leases = set s.leases i v }

abbrev pub at : ℕ → Leases → Option ℕ
at i s = elim (get_elem? s.leases i) [ none ↦ none | some v ↦ v ]

abbrev pub add : Option ℕ → Leases → Leases
add v s = record s { leases = s.leases ++ v ∷ [] }

-- `progress_engine_lease(progress_engine*)`
unfoldable pub make : Option ℕ → Leases → Leases
unfolding register_if
make e s = register_if e (add e s)

-- `progress_engine_lease(progress_engine_lease const &)`
unfoldable pub copy : ℕ → Leases → Leases
unfolding make
copy j s = make (at j s) s

-- `progress_engine_lease(progress_engine_lease &&)`
unfoldable pub move : ℕ → Leases → Leases
move j s = put j none (add (at j s) s)

-- `no_contexts` says whether an engine has no connected contexts.
module _ (no_contexts : ℕ → Bool) where
  pub deregister_fiber : ℕ → Leases → Leases
  deregister_fiber e s = if s.fibers e == 0 then record s { errors = suc s.errors } else record s {
    fibers = λ k. if e == k then s.fibers k - 1 else s.fibers k;
    cancelled = if s.fibers e - 1 == 0 && no_contexts e then s.cancelled ++ e ∷ [] else s.cancelled;
  }

  pub deregister_if : Option ℕ → Leases → Leases
  unfolding deregister_fiber
  deregister_if none s = s
  deregister_if (some e) s = deregister_fiber e s

  -- `clear`, and the destructor
  unfoldable pub clear : ℕ → Leases → Leases
  unfolding deregister_if
  clear i s = put i none (deregister_if (at i s) s)

  -- `operator=(progress_engine_lease const &)`: the temporary copy is registered, and moved from.
  unfoldable pub assign_copy : ℕ → ℕ → Leases → Leases
  unfolding clear register_if
  assign_copy i j s =
      if same_engine (at i s) (at j s)
      then s
      else (let t = clear i s in put i (at j t) (register_if (at j t) t))

  -- `operator=(progress_engine_lease &&)`
  unfoldable pub assign_move : ℕ → ℕ → Leases → Leases
  unfolding clear
  assign_move i j s = if i == j then s else (let t = clear i s in put j none (put i (at j t) t))

-- What fibers do with their leases.
pub data Op : Type 0 where
  makes : Option ℕ → Op
  copies moves clears : ℕ → Op
  assigns_copy assigns_move : ℕ → ℕ → Op

abbrev pub in_range : ℕ → Leases → Bool
in_range i s = ltb i (length s.leases)

module _ (no_contexts : ℕ → Bool) where
  unfoldable pub step : Op → Leases → Leases
  unfolding make copy move clear assign_copy assign_move
  step (makes e) s = make e s
  step (copies j) s = copy j s
  step (moves j) s = move j s
  step (clears i) s = clear no_contexts i s
  step (assigns_copy i j) s = if in_range i s then assign_copy no_contexts i j s else s
  step (assigns_move i j) s = if in_range i s then assign_move no_contexts i j s else s

  unfoldable pub run : List Op → Leases → Leases
  unfolding step
  run [] s = s
  run (o ∷ os) s = run os (step o s)
