-- ===== src/Flow.antt =====
-- The configuration objects of DOCA Flow (shoc/flow.hpp, shoc/flow.cpp): which function of DOCA each
-- setter calls, and with what. Pipes and what they forward to are in child modules.
pub mod QueueDepth
pub mod Actions
pub mod Forwarding
pub mod Pipes
pub mod Calls
mod Tests
use mathlib.Core.Logic.{ite}
use native.Mathlib.Decide.{ℕ_discrete}
use shoc.Base.{ℕ, Bool, true, false, Option, none, some, List, [], ◌∷◌, ◌++◌, if◌then◌else◌}
use shoc.Doca.{DocaError, is_success}
use shoc.Error.{Outcome, ok, throws, doca_exception, ◌>>=◌, ◌>>◌, enforce_success}
use shoc.Offload.{flag}

-- The functions of DOCA that configure the library, a port or a pipe.
pub data CfgFunction : Type 0 where
  cfg_set_pipe_queues cfg_set_nr_counters cfg_set_nr_meters cfg_set_nr_acl_collisions : CfgFunction
  cfg_set_mode_args cfg_set_nr_shared_resource cfg_set_queue_depth : CfgFunction
  cfg_set_rss_key cfg_set_default_rss : CfgFunction
  port_cfg_set_port_id port_cfg_set_devargs port_cfg_set_priv_data_size : CfgFunction
  port_cfg_set_dev port_cfg_set_rss_cfg port_cfg_set_ipsec_sn_offload_disable : CfgFunction
  port_cfg_set_operation_state port_cfg_set_actions_mem_size : CfgFunction
  port_cfg_set_service_threads_core port_cfg_set_service_threads_cycle : CfgFunction
  pipe_cfg_set_match pipe_cfg_set_actions pipe_cfg_set_monitor pipe_cfg_set_name : CfgFunction
  pipe_cfg_set_type pipe_cfg_set_domain pipe_cfg_set_is_root : CfgFunction
  pipe_cfg_set_nr_entries pipe_cfg_set_is_resizable pipe_cfg_set_miss_counter : CfgFunction
  pipe_cfg_set_congestion_level_threshold pipe_cfg_set_user_ctx : CfgFunction
  pipe_cfg_set_hash_map_algorithm : CfgFunction

CfgFunction-discrete_lem : Discrete CfgFunction
CfgFunction-discrete_lem = hlevel

unfoldable pub CfgFunction-discrete : Discrete CfgFunction
unfolding CfgFunction-discrete_lem
CfgFunction-discrete = CfgFunction-discrete_lem

-- A call on the configuration's handle; pointers and enumerations are numbers.
pub record Call : Type 0 where
  pub function : CfgFunction
  pub args : List ℕ

abbrev call1 : CfgFunction → ℕ → Call
call1 f n = record { function = f; args = n ∷ [] }

-- `global_cfg`: the setters
pub data GlobalSetter : Type 0 where
  set_pipe_queues set_nr_counters set_nr_meters set_nr_acl_collisions : ℕ → GlobalSetter
  set_mode_args set_queue_depth set_default_rss : ℕ → GlobalSetter
  set_nr_shared_resource set_rss_key : ℕ → ℕ → GlobalSetter

unfoldable pub global_call : GlobalSetter → Call
global_call (set_pipe_queues n) = call1 cfg_set_pipe_queues n
global_call (set_nr_counters n) = call1 cfg_set_nr_counters n
global_call (set_nr_meters n) = call1 cfg_set_nr_meters n
global_call (set_nr_acl_collisions n) = call1 cfg_set_nr_acl_collisions n
global_call (set_mode_args p) = call1 cfg_set_mode_args p
global_call (set_nr_shared_resource n type) = record {
  function = cfg_set_nr_shared_resource;
  args = n ∷ type ∷ [];
}
global_call (set_queue_depth n) = call1 cfg_set_nr_counters n
global_call (set_rss_key key size) = record { function = cfg_set_rss_key; args = key ∷ size ∷ [] }
global_call (set_default_rss rss) = call1 cfg_set_default_rss rss

-- `port_cfg`: the setters
pub data PortSetter : Type 0 where
  set_port_id set_devargs set_priv_data_size set_dev set_rss_cfg : ℕ → PortSetter
  set_operation_state set_actions_mem_size : ℕ → PortSetter
  set_service_threads_core set_service_threads_cycle : ℕ → PortSetter
  set_ipsec_sn_offload_disable : PortSetter

unfoldable pub port_call : PortSetter → Call
port_call (set_port_id n) = call1 port_cfg_set_port_id n
port_call (set_devargs p) = call1 port_cfg_set_devargs p
port_call (set_priv_data_size n) = call1 port_cfg_set_priv_data_size n
port_call (set_dev dev) = call1 port_cfg_set_dev dev
port_call (set_rss_cfg rss) = call1 port_cfg_set_rss_cfg rss
port_call set_ipsec_sn_offload_disable = record {
  function = port_cfg_set_ipsec_sn_offload_disable;
  args = [];
}
port_call (set_operation_state state) = call1 port_cfg_set_operation_state state
port_call (set_actions_mem_size n) = call1 port_cfg_set_actions_mem_size n
port_call (set_service_threads_core core) = call1 port_cfg_set_service_threads_core core
port_call (set_service_threads_cycle ms) = call1 port_cfg_set_service_threads_cycle ms

-- `pipe_cfg`: the setters but for the actions; an optional argument may be null.
pub data PipeSetter : Type 0 where
  set_match : ℕ → Option ℕ → PipeSetter
  set_monitor set_name set_type set_domain set_nr_entries : ℕ → PipeSetter
  set_congestion_level_threshold set_user_ctx set_hash_map_algorithm : ℕ → PipeSetter
  set_is_root set_is_resizable set_miss_counter : Bool → PipeSetter

-- `unpack_single`: the address of the value, or null, which is zero.
abbrev pub unpack_single : Option ℕ → ℕ
unpack_single none = 0
unpack_single (some p) = p

unfoldable pub pipe_call : PipeSetter → Call
pipe_call (set_match match match_mask) = record {
  function = pipe_cfg_set_match;
  args = match ∷ unpack_single match_mask ∷ [];
}
pipe_call (set_monitor p) = call1 pipe_cfg_set_monitor p
pipe_call (set_name p) = call1 pipe_cfg_set_name p
pipe_call (set_type type) = call1 pipe_cfg_set_type type
pipe_call (set_domain domain) = call1 pipe_cfg_set_domain domain
pipe_call (set_is_root b) = call1 pipe_cfg_set_is_root (flag b)
pipe_call (set_nr_entries n) = call1 pipe_cfg_set_nr_entries n
pipe_call (set_is_resizable b) = call1 pipe_cfg_set_is_resizable (flag b)
pipe_call (set_miss_counter b) = call1 pipe_cfg_set_miss_counter (flag b)
pipe_call (set_congestion_level_threshold n) = call1 pipe_cfg_set_congestion_level_threshold n
pipe_call (set_user_ctx p) = call1 pipe_cfg_set_user_ctx p
pipe_call (set_hash_map_algorithm n) = call1 pipe_cfg_set_hash_map_algorithm n

-- A configuration object: its handle, if it exists yet, the port's id, and the calls that DOCA has
-- accepted.
pub record Cfg : Type 0 where
  pub handle : Option ℕ
  pub port_id : ℕ  -- uint16
  pub accepted : List Call

unfoldable pub new_cfg : Cfg
new_cfg = record { handle = none; port_id = 65535; accepted = [] }

-- What DOCA answers when a handle is to be made, the handle, and the answer to the setter's call.
pub record SetterAnswers : Type 0 where
  pub created : DocaError
  pub new_handle : ℕ
  pub answer : DocaError

-- `ensure_handle_exists`
unfoldable pub make_handle : SetterAnswers → Option ℕ → Cfg → Outcome Cfg
unfolding enforce_success
make_handle a (some h) c = ok c
make_handle a none c = do enforce_success a.created; ok (record c { handle = some a.new_handle })

unfoldable pub ensure_handle_exists : SetterAnswers → Cfg → Outcome Cfg
unfolding make_handle
ensure_handle_exists a c = make_handle a c.handle c

unfoldable pub accept_call : SetterAnswers → Call → Outcome Cfg → Cfg → Outcome Cfg × Cfg
accept_call a call (ok c') c =
    let c'' : Cfg = record c' { accepted = c'.accepted ++ call ∷ [] } in
    if is_success a.answer then (ok c'', c'') else (throws (doca_exception a.answer), c')
accept_call a call (throws e) c = (throws e, c)
accept_call a call Outcome.terminates c = (Outcome.terminates, c)
accept_call a call Outcome.undefined c = (Outcome.undefined, c)

-- A setter: its outcome, and the object that is left.
unfoldable pub set_option : SetterAnswers → Call → Cfg → Outcome Cfg × Cfg
unfolding ensure_handle_exists accept_call
set_option a call c = accept_call a call (ensure_handle_exists a c) c

abbrev keep_port_id : PortSetter → Cfg → Cfg
keep_port_id (set_port_id n) c = record c { port_id = n }
keep_port_id _ c = c

-- A setter of `port_cfg`; `set_port_id` also keeps the id.
unfoldable pub set_port_option : SetterAnswers → PortSetter → Cfg → Outcome Cfg × Cfg
unfolding set_option port_call
set_port_option a s c =
    let (result, c') = set_option a (port_call s) c in
    elim result [
      | ok c'' ↦ (ok (keep_port_id s c''), keep_port_id s c'')
      | throws e ↦ (throws e, c')
      | Outcome.terminates ↦ (Outcome.terminates, c')
      | Outcome.undefined ↦ (Outcome.undefined, c')
    ]

-- The arguments of the last accepted call of a function.
unfoldable pub last_of : CfgFunction → List Call → Option (List ℕ)
last_of f [] = none
last_of f (c ∷ cs) = elim (last_of f cs) [
  | some args ↦ some args
  | none ↦ ite (CfgFunction-discrete c.function f) (some c.args) none
]
