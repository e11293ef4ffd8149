-- ===== src/Context/Scoped.antt =====
-- The scope wrappers that stop a context, or disconnect a connection, when they are destroyed:
-- `unique_scoped_context` (shoc/context.hpp) and `scoped_server_connection` (shoc/comch/server.hpp).
-- A wrapper is the address of what it holds; the log has the stops that wrappers request.
pub mod Conservation
use shoc.Base.{
  ℕ, ◌≡◌, refl, Bool, true, Option, none, some, List, [], ◌∷◌, ◌++◌, arith, if◌then◌else◌,
}

-- The two wrappers of a move, and the stops so far.
pub record Wrappers : Type 0 where
  pub this : Option ℕ
  pub other : Option ℕ
  pub stopped : List ℕ

-- `std::exchange(p, nullptr)`: the old value, and the new one.
abbrev exchange : Option ℕ → Option ℕ × Option ℕ
exchange p = (p, none)

-- `unique_scoped_context(unique_scoped_context &&)`: the new wrapper, and the old one.
unfoldable pub move_construct : Option ℕ → Option ℕ × Option ℕ
move_construct other = exchange other

module _ (has_handle : ℕ → Bool) where
  -- `unique_scoped_context::clear`: what is left in the wrapper, and the stops.
  unfoldable pub clear : Option ℕ → List ℕ → Option ℕ × List ℕ
  clear none log = (none, log)
  clear (some c) log = if has_handle c then (none, log ++ c ∷ []) else (some c, log)

  -- `~unique_scoped_context`
  unfoldable pub destroy : Option ℕ → List ℕ → List ℕ
  unfolding clear
  destroy ctx log = (clear ctx log).1

  -- `unique_scoped_context::operator=(unique_scoped_context &&)`, which assigns to `other.ctx_`.
  unfoldable pub move_assign : Wrappers → Wrappers
  unfolding clear
  move_assign w =
      let (this', log) = clear w.this w.stopped in
      let (old, emptied) = exchange w.other in record { this = this'; other = old; stopped = log }

-- `scoped_server_connection::clear`
unfoldable pub clear_connection : Option ℕ → List ℕ → Option ℕ × List ℕ
clear_connection none log = (none, log)
clear_connection (some c) log = (none, log ++ c ∷ [])

-- `scoped_server_connection::operator=(scoped_server_connection &&)`
unfoldable pub move_assign_connection : Wrappers → Wrappers
unfolding clear_connection
move_assign_connection w =
    let (_, log) = clear_connection w.this w.stopped in
    let (old, emptied) = exchange w.other in record { this = old; other = emptied; stopped = log }

-- Both wrappers go out of scope, the source of the move first.
pub leave_scopes : (ℕ → Bool) → Wrappers → List ℕ
unfolding destroy
leave_scopes has_handle w = destroy has_handle w.this (destroy has_handle w.other w.stopped)

-- Move assignment of a scoped context does not transfer the context: the source keeps it, and the
-- target holds nothing, provided that what the target held before still had its handle.
pub move_assign_does_not_transfer :
    (has_handle : ℕ → Bool) (a c : ℕ) (log : List ℕ)
    → has_handle a ≡ true
    → move_assign has_handle (record { this = some a; other = some c; stopped = log })
      ≡ record { this = none; other = some c; stopped = log ++ a ∷ [] }
unfolding move_assign
move_assign_does_not_transfer has_handle a c log h = rw h

-- After a move construction, the context is stopped exactly once when both wrappers are destroyed,
-- if it has its handle then, and not at all if it has none.
pub move_construct_stops_once :
    (has_handle : ℕ → Bool) (c : ℕ) (log : List ℕ)
    → let (this, other) = move_construct (some c) in
      leave_scopes has_handle (record { this = this; other = other; stopped = log })
      ≡ (if has_handle c then log ++ c ∷ [] else log)
unfolding move_construct leave_scopes
move_construct_stops_once has_handle c log = ground arith
