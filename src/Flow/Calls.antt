-- ===== src/Flow/Calls.antt =====
-- The operations of ports and pipes that are one call of DOCA each (shoc/flow.cpp): the function, its
-- arguments, and what becomes of its answer.
use shoc.Base.{ℕ, ◌%◌, ◌^◌, some, List, [], ◌∷◌}
use shoc.Doca.{DocaError}
use shoc.Error.{Outcome, ok, ◌>>◌, enforce_success}
use shoc.Flow.{Cfg, new_cfg}

pub data FlowFunction : Type 0 where
  flow_init port_pair port_operation_state_modify port_calc_entropy port_pipes_flush : FlowFunction
  entries_process shared_resources_bind_to_port shared_resources_bind_to_pipe : FlowFunction
  pipe_remove_entry pipe_entry_get_status resource_query_pipe_miss pipe_dump : FlowFunction

pub record FlowCall : Type 0 where
  pub function : FlowFunction
  pub args : List ℕ

-- `init`; the answer is handed on, as it is by the other functions that return a `doca_error_t`.
unfoldable pub init : ℕ → DocaError → FlowCall × DocaError
init cfg answer = (record { function = flow_init; args = cfg ∷ [] }, answer)

-- `port::pair`
unfoldable pub pair : ℕ → ℕ → DocaError → FlowCall × DocaError
pair port other answer = (record { function = port_pair; args = port ∷ other ∷ [] }, answer)

-- `port::operation_state_modify`
unfoldable pub operation_state_modify : ℕ → ℕ → DocaError → FlowCall × DocaError
operation_state_modify port state answer =
    (record { function = port_operation_state_modify; args = port ∷ state ∷ [] }, answer)

-- `port::calc_entropy`: what DOCA writes is returned, unless it answers with an error.
unfoldable pub calc_entropy : ℕ → ℕ → DocaError → ℕ → FlowCall × Outcome ℕ
unfolding enforce_success
calc_entropy port header answer entropy = (
  record { function = port_calc_entropy; args = port ∷ header ∷ [] },
  enforce_success answer >> ok entropy,
)

-- `port::pipes_flush`
unfoldable pub pipes_flush : ℕ → FlowCall
pipes_flush port = record { function = port_pipes_flush; args = port ∷ [] }

-- `port::process_entries`, with the timeout in microseconds
unfoldable pub process_entries : ℕ → ℕ → ℕ → ℕ → DocaError → FlowCall × DocaError
process_entries port pipe_queue timeout max_processed_entries answer = (
  record {
    function = entries_process;
    args = port ∷ pipe_queue ∷ timeout ∷ max_processed_entries ∷ [];
  },
  answer,
)

-- `port::shared_resources_bind` and `pipe::shared_resources_bind`: the number of resources is cast to
-- `uint32_t`.
bind : FlowFunction → ℕ → ℕ → ℕ → ℕ → DocaError → FlowCall × DocaError
bind f owner type resources size answer =
    (record { function = f; args = type ∷ resources ∷ size % 2 ^ 32 ∷ owner ∷ [] }, answer)

unfoldable pub bind_to_port : ℕ → ℕ → ℕ → ℕ → DocaError → FlowCall × DocaError
unfolding bind
bind_to_port port type resources size answer =
    bind shared_resources_bind_to_port port type resources size answer

unfoldable pub bind_to_pipe : ℕ → ℕ → ℕ → ℕ → DocaError → FlowCall × DocaError
unfolding bind
bind_to_pipe pipe type resources size answer =
    bind shared_resources_bind_to_pipe pipe type resources size answer

-- `pipe_cfg::pipe_cfg`
unfoldable pub new_pipe_cfg : DocaError → ℕ → Outcome Cfg
unfolding enforce_success new_cfg
new_pipe_cfg created handle =
    enforce_success created >> ok (record new_cfg { handle = some handle })

-- `pipe_entry::status`
unfoldable pub entry_status : ℕ → ℕ → FlowCall × ℕ
entry_status entry status = (record { function = pipe_entry_get_status; args = entry ∷ [] }, status)

-- `pipe::remove_entry`
unfoldable pub remove_entry : ℕ → ℕ → ℕ → DocaError → FlowCall × DocaError
remove_entry pipe_queue flags entry answer =
    (record { function = pipe_remove_entry; args = pipe_queue ∷ flags ∷ entry ∷ [] }, answer)

-- `pipe::query_pipe_miss`
unfoldable pub query_pipe_miss : ℕ → DocaError → ℕ → FlowCall × Outcome ℕ
unfolding enforce_success
query_pipe_miss pipe answer query = (
  record { function = resource_query_pipe_miss; args = pipe ∷ [] },
  enforce_success answer >> ok query,
)

-- `pipe::dump`
unfoldable pub dump : ℕ → ℕ → FlowCall
dump pipe fd = record { function = pipe_dump; args = pipe ∷ fd ∷ [] }
