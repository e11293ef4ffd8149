-- ===== src/Flow/Pipes.antt =====
-- Ports, pipes and their entries (shoc/flow.hpp, shoc/flow.cpp): the calls of DOCA. Matches, actions
-- and the like are addresses; an optional one that is absent is null.
use shoc.Base.{ℕ, Option, List, [], ◌∷◌, ◌++◌}
use shoc.Doca.{DocaError}
use shoc.Error.{Outcome, ok, ◌>>=◌, ◌>>◌, enforce_success}
use shoc.Flow.{Cfg, unpack_single}
use shoc.Flow.Forwarding.{DocaFwd, FlowFwd, docaify_fwd}

-- What DOCA answers to the question for the kernel's target, and what is not initialised.
pub record FwdContext : Type 0 where
  pub get_target : DocaError
  pub kernel_target : ℕ
  pub doca_buffer : DocaFwd

abbrev pub docaify : FwdContext → FlowFwd → Outcome (Option DocaFwd)
unfolding docaify_fwd
docaify x fwd = docaify_fwd x.get_target x.kernel_target fwd x.doca_buffer

-- A call that makes a pipe or an entry: the numbers in their order, and the targets.
pub record PipeCall : Type 0 where
  pub args : List ℕ
  pub fwds : List (Option DocaFwd)

-- `port::port`
unfoldable pub new_port : DocaError → ℕ → Cfg → Outcome (ℕ × ℕ)
unfolding enforce_success
new_port answer handle cfg = do enforce_success answer; ok (handle, cfg.port_id)

-- `pipe::pipe`: the call, and the pipe's handle.
unfoldable pub new_pipe :
    FwdContext → FwdContext → DocaError → ℕ → ℕ → FlowFwd → FlowFwd → Outcome (PipeCall × ℕ)
unfolding docaify enforce_success
new_pipe x y answer handle cfg fwd fwd_miss = do
  fwd_doca ← docaify x fwd
  fwd_miss_doca ← docaify y fwd_miss
  enforce_success answer
  ok (record { args = cfg ∷ []; fwds = fwd_doca ∷ fwd_miss_doca ∷ [] }, handle)

-- `pipe::add_entry`
unfoldable pub add_entry :
    FwdContext
    → DocaError
    → ℕ
    → ℕ
    → ℕ
    → ℕ
    → Option ℕ
    → Option ℕ
    → FlowFwd
    → ℕ
    → ℕ
    → Outcome (PipeCall × ℕ)
unfolding docaify enforce_success
add_entry x answer entry pipe pipe_queue match actions monitor fwd flags usr_ctx = do
  fwd_doca ← docaify x fwd
  enforce_success answer
  ok (
    record {
      args =
          pipe_queue
          ∷ pipe
          ∷ match
          ∷ unpack_single actions
          ∷ unpack_single monitor
          ∷ flags
          ∷ usr_ctx
          ∷ [];
      fwds = fwd_doca ∷ [];
    },
    entry,
  )

-- `pipe::acl_add_entry`
unfoldable pub acl_add_entry :
    FwdContext → DocaError → ℕ → ℕ → ℕ → ℕ → Option ℕ → ℕ → FlowFwd → ℕ → ℕ → Outcome (PipeCall × ℕ)
unfolding docaify enforce_success
acl_add_entry x answer entry pipe pipe_queue match match_mask priority fwd flags usr_ctx = do
  fwd_doca ← docaify x fwd
  enforce_success answer
  ok (
    record {
      args = pipe_queue ∷ pipe ∷ match ∷ unpack_single match_mask ∷ priority ∷ flags ∷ usr_ctx ∷ [];
      fwds = fwd_doca ∷ [];
    },
    entry,
  )

-- The optional arguments of `control_add_entry`, in their order.
pub record ControlArgs : Type 0 where
  pub match_mask : Option ℕ
  pub condition : Option ℕ
  pub actions : Option ℕ
  pub actions_mask : Option ℕ
  pub action_descs : Option ℕ
  pub monitor : Option ℕ

-- `pipe::control_add_entry`
unfoldable pub control_add_entry :
    FwdContext → DocaError → ℕ → ℕ → ℕ → ℕ → ℕ → ControlArgs → FlowFwd → ℕ → Outcome (PipeCall × ℕ)
unfolding docaify enforce_success
control_add_entry x answer entry pipe pipe_queue priority match opt fwd usr_ctx = do
  fwd_doca ← docaify x fwd
  enforce_success answer
  ok (
    record {
      args =
          pipe_queue
          ∷ priority
          ∷ pipe
          ∷ match
          ∷ unpack_single opt.match_mask
          ∷ unpack_single opt.condition
          ∷ unpack_single opt.actions
          ∷ unpack_single opt.actions_mask
          ∷ unpack_single opt.action_descs
          ∷ unpack_single opt.monitor
          ∷ usr_ctx
          ∷ [];
      fwds = fwd_doca ∷ [];
    },
    entry,
  )

-- A question (`query`, `query_pipe_miss`, `calc_entropy`): what DOCA answers, and what it writes.
unfoldable pub query : DocaError → ℕ → Outcome ℕ
unfolding enforce_success
query answer result = do enforce_success answer; ok result

-- `library_scope`: the calls of its life. What `init` answers is not looked at.
pub data ScopeCall : Type 0 where
  inits : DocaError → ScopeCall
  destroys : ScopeCall

unfoldable pub library_scope : DocaError → List ScopeCall → List ScopeCall
library_scope init body = inits init ∷ (body ++ destroys ∷ [])
