-- ===== src/Offload/Tests.antt =====
-- Instances of the theorems on constructors and their tasks, and runs of callbacks.
use shoc.Base.{ℕ, ◌≡◌, refl, inl, Bool, true, false, ◌==◌, if◌then◌else◌, none, some, [], ◌∷◌}
use shoc.Doca.{DocaError, success, not_supported, in_use, DocaError-discrete}
use shoc.Error.{ok, throws, doca_exception, enforce_success, enforce_success_as, enforce}
use shoc.Coro.{monostate, payload, set_value, overwrite, resume}
use shoc.Offload.{Callback, casts_to, Capability, set_conf}
use shoc.Offload.Setup.{successful, base_calls, and_then, construct, enforce_each}
use shoc.Offload.Contexts.{compress_context, RdmaConfig, rdma_context}
use shoc.Offload.Operations.{rdma_send_imm, allocate_partial_hash_task}
use shoc.Offload.Configured.EachContext.{Occurs}
use shoc.Offload.Configured.{rdma, constructor_of, task_of, construct-sets_up}
use shoc.Offload.Callbacks.{frees_task, reads_task, resumes, WithData, receive_completion_callback}

abbrev config : RdmaConfig
config = record { permissions = 1; gid = none; max_tasks = 16; connections = 1; transport = 0 }

abbrev all_accepted : ℕ → DocaError
all_accepted n = success

abbrev all_capable : Capability → Bool
all_capable c = true

rdma_constructor_returns :
    (construct all_capable all_accepted (constructor_of (rdma config))).1 ≡ ok tt
unfolding construct and_then enforce_each enforce_success enforce_success_as enforce
    DocaError-discrete constructor_of rdma_context
rdma_constructor_returns = refl

construct-sets_up_example :
    let t = task_of (rdma config) (λ n. n, 3, inl (rdma_send_imm (some 9) 5)) in
    (c : Callback) × Occurs
      (set_conf t.type c c 16, success)
      (construct all_capable all_accepted (constructor_of (rdma config))).0
    × (casts_to c ≡ t.user_data)
construct-sets_up_example =
    construct-sets_up all_capable all_accepted (rdma config)
      (λ n. n, 3, inl (rdma_send_imm (some 9) 5)) rdma_constructor_returns

-- The second call of the body is refused.
abbrev sixth_refused : ℕ → DocaError
sixth_refused n = if n == 5 then not_supported else success

lz4_refused :
    (construct all_capable sixth_refused (compress_context 32)).1
    ≡ throws (doca_exception not_supported)
unfolding construct and_then compress_context enforce_each enforce_success enforce_success_as
    enforce DocaError-discrete
lz4_refused = refl

-- Without the capability, the handle is created and connected all the same.
not_capable :
    construct (λ c. false) (λ n. success) (compress_context 32)
    ≡ (successful base_calls, throws (doca_exception not_supported))
unfolding construct and_then compress_context enforce_each enforce_success enforce_success_as
    enforce DocaError-discrete
not_capable = refl

abbrev waiting : WithData ℕ
waiting = record {
  dest = record { value_ = monostate; waiter_ = some 2 };
  additional_data = some 0;
}

immediate_is_written : receive_completion_callback (λ n. n) success 5 waiting ≡ (
  record { dest = record { value_ = payload success; waiter_ = some 2 }; additional_data = some 5 },
  reads_task ∷ reads_task ∷ frees_task ∷ resumes (some 2) ∷ [],
)
unfolding receive_completion_callback set_value overwrite resume
immediate_is_written = refl

unmarked_task_is_an_error : allocate_partial_hash_task true success in_use ≡ in_use
unfolding allocate_partial_hash_task
unmarked_task_is_an_error = refl
