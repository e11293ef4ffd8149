-- ===== src/Rdma.antt =====
-- The connection manager of an RDMA context (shoc/rdma.hpp, shoc/rdma.cpp): listening, connecting,
-- and what DOCA reports about connections. A connection is known by its handle, a receptable by its
-- address, and what DOCA answers is an argument.
pub mod History
pub mod Refused
mod Tests
use shoc.Base.{
  ℕ, suc, ◌+◌, ◌≡◌, refl, Bool, true, false, Option, none, some, List, [], ◌∷◌, ◌++◌, ◌==◌,
  if◌then◌else◌, lookup, insert, erase,
}
use shoc.Doca.{DocaError, bad_state, already_exist, connection_aborted, is_success}
use shoc.Error.{Outcome, ok, terminates}
use shoc.Coro.{Receptable, create_empty, from_error, set_error, emplace_value}
use shoc.AccepterQueues.{update}

pub data CmRole : Type 0 where
  no_role server client : CmRole

abbrev pub is_server : CmRole → Bool
is_server server = true
is_server _ = false

abbrev pub has_role : CmRole → Bool
has_role no_role = false
has_role _ = true

pub data CmCall : Type 0 where
  accepts rejects : ℕ → CmCall

pub record Rdma : Type 0 where
  -- `listeners_`, from ports to receptables
  pub listeners : List (ℕ × ℕ)
  pub cm_role : CmRole
  -- the user data of each connection, which DOCA keeps
  pub user_data : ℕ → Option ℕ
  -- the receptables, and the next address that `make_unique` gives
  pub cells : ℕ → Receptable ℕ
  pub next : ℕ
  -- the answers to requests, and the receptables that were given a result and that were resumed
  pub calls : List CmCall
  pub completed : List ℕ
  pub resumed : List ℕ

-- What DOCA answers to the question for a connection's port.
pub record PortAnswers : Type 0 where
  pub get_addr : DocaError
  pub get_params : DocaError
  pub port : ℕ  -- uint16

unfoldable pub get_port_from_addr : PortAnswers → Option ℕ
get_port_from_addr q = if is_success q.get_params then some q.port else none

unfoldable pub get_port_from_connection : PortAnswers → Option ℕ
unfolding get_port_from_addr
get_port_from_connection q = if is_success q.get_addr then get_port_from_addr q else none

unfoldable pub new_rdma : Rdma
unfolding create_empty
new_rdma = record {
  listeners = [];
  cm_role = no_role;
  user_data = λ _. none;
  cells = λ _. create_empty;
  next = 0;
  calls = [];
  completed = [];
  resumed = [];
}

-- The awaitable that a call returns owns the receptable at the old `next`; here it has a result from
-- the start.
unfoldable pub failed_awaitable : DocaError → Rdma → Rdma
unfolding from_error
failed_awaitable e s = record s {
  cells = update s.cells s.next (from_error e);
  next = suc s.next;
  completed = s.completed ++ s.next ∷ [];
}

-- `rdma_context::connect`: `conn` is the connection that DOCA makes for the request.
unfoldable pub connect : DocaError → ℕ → Rdma → Rdma
unfolding create_empty set_error failed_awaitable
connect answer conn s =
    if has_role s.cm_role
    then failed_awaitable bad_state s
    else (if is_success answer
        then record s {
          cells = update s.cells s.next create_empty;
          next = suc s.next;
          user_data = update s.user_data conn (some s.next);
          cm_role = client;
        }
        else record s {
          cells = update s.cells s.next (set_error answer create_empty);
          next = suc s.next;
          completed = s.completed ++ s.next ∷ [];
        })

-- `listeners_.contains(port)`
abbrev pub is_some {ℓ} : {A : Type ℓ} → Option A → Bool
is_some none = false
is_some (some a) = true

-- `rdma_context::listen`
unfoldable pub listen : DocaError → ℕ → Rdma → Rdma
unfolding create_empty failed_awaitable
listen answer port s =
    if is_some (lookup port s.listeners)
    then failed_awaitable already_exist s
    else (if is_success answer
        then record s {
          cm_role = server;
          cells = update s.cells s.next create_empty;
          next = suc s.next;
          listeners = insert port s.next s.listeners;
        }
        else failed_awaitable answer s)

abbrev pub reject : ℕ → Rdma → Rdma
reject conn s = record s { calls = s.calls ++ rejects conn ∷ [] }

-- The end of `connection_request`, for a port with a listener at `dest`.
unfoldable pub answer_request : DocaError → ℕ → ℕ → ℕ → Rdma → Rdma
unfolding set_error
answer_request accepted conn port dest s =
    if is_success accepted then record s { calls = s.calls ++ accepts conn ∷ [] } else record s {
      calls = s.calls ++ accepts conn ∷ rejects conn ∷ [];
      cells = update s.cells dest (set_error accepted (s.cells dest));
      completed = s.completed ++ dest ∷ [];
      listeners = erase port s.listeners;
    }

unfoldable pub request_at : DocaError → ℕ → ℕ → Option ℕ → Rdma → Rdma
unfolding answer_request
request_at accepted conn port none s = reject conn s
request_at accepted conn port (some dest) s = answer_request accepted conn port dest s

unfoldable pub request_from : DocaError → ℕ → Option ℕ → Rdma → Rdma
unfolding request_at
request_from accepted conn none s = reject conn s
request_from accepted conn (some port) s = request_at accepted conn port (lookup port s.listeners) s

-- `rdma_context::connection_request`, in a build that checks assertions.
unfoldable pub connection_request : PortAnswers → DocaError → ℕ → Rdma → Outcome Rdma
unfolding request_from get_port_from_connection
connection_request q accepted conn s =
    if is_server s.cm_role
    then ok (request_from accepted conn (get_port_from_connection q) s)
    else terminates

abbrev pub take_listener_at : ℕ → Option ℕ → Rdma → Option ℕ × Rdma
take_listener_at port none s = (none, s)
take_listener_at port (some dest) s = (some dest, record s { listeners = erase port s.listeners })

abbrev pub take_listener : Option ℕ → Rdma → Option ℕ × Rdma
take_listener none s = (none, s)
take_listener (some port) s = take_listener_at port (lookup port s.listeners) s

-- `rdma_context::take_connection_receptable`
unfoldable pub take_connection_receptable : PortAnswers → ℕ → Rdma → Option ℕ × Rdma
unfolding get_port_from_connection
take_connection_receptable q conn s = elim s.cm_role [
  | server ↦ take_listener (get_port_from_connection q) s
  | client ↦ (s.user_data conn, record s { user_data = update s.user_data conn none })
  | no_role ↦ (none, s)
]

-- What `connection_established` and `connection_failure` do with the receptable that they took.
unfoldable pub complete : (Receptable ℕ → Receptable ℕ) → Option ℕ × Rdma → Rdma
complete set (none, s) = s
complete set (some dest, s) = record s {
  cells = update s.cells dest (set (s.cells dest));
  completed = s.completed ++ dest ∷ [];
  resumed = s.resumed ++ dest ∷ [];
}

-- `rdma_context::connection_established`
unfoldable pub connection_established : PortAnswers → ℕ → Rdma → Rdma
unfolding take_connection_receptable complete emplace_value
connection_established q conn s =
    complete (emplace_value conn) (take_connection_receptable q conn s)

-- `rdma_context::connection_failure`
unfoldable pub connection_failure : PortAnswers → ℕ → Rdma → Rdma
unfolding take_connection_receptable complete set_error
connection_failure q conn s =
    complete (set_error connection_aborted) (take_connection_receptable q conn s)

-- `rdma_context::connection_disconnected`
unfoldable pub connection_disconnected : ℕ → Rdma → Rdma
connection_disconnected conn s = s
