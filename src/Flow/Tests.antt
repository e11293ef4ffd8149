-- ===== src/Flow/Tests.antt =====
-- Instances of the theorems on flow configurations, and runs.
use shoc.Base.{ℕ, zero, suc, ◌≡◌, refl, none, some, List, [], ◌∷◌}
use shoc.Doca.{DocaError-discrete, success, not_supported}
use shoc.Error.{ok, throws, doca_exception, enforce_success, enforce_success_as, enforce}
use shoc.Flow.{
  GlobalSetter, set_pipe_queues, set_nr_counters, set_port_id, port_call, set_port_option,
  set_option, ensure_handle_exists, make_handle, accept_call, SetterAnswers, new_cfg,
}
use shoc.Flow.Actions.{ExtendedActions, extended_actions, descs_ptr}
use shoc.Flow.Forwarding.{
  DocaFwd, fwd_kernel, docaify_fwd, uninitialised, other_type, fwd_target_type, target,
}

abbrev accepted : SetterAnswers
accepted = record { created = success; new_handle = 5; answer = success }

abbrev counters_first : List (SetterAnswers × GlobalSetter)
counters_first = (accepted, set_pipe_queues 4) ∷ (accepted, set_nr_counters 100) ∷ []

-- More descriptions than an `uint8_t` can count are accepted, and too few of them are announced.
abbrev descriptions : ℕ → List ℕ
descriptions zero = []
descriptions (suc n) = n ∷ descriptions n

too_few_announced :
    (e : ExtendedActions ℕ) × (extended_actions 1 none (descriptions 260) ≡ ok e)
    × ((descs_ptr e).nb_action_desc ≡ 4)
unfolding extended_actions descs_ptr enforce
too_few_announced = (_, refl, refl)

port_id_is_kept : (set_port_option accepted (set_port_id 3) new_cfg).1.port_id ≡ 3
unfolding set_port_option set_option ensure_handle_exists make_handle accept_call new_cfg port_call
    enforce_success enforce_success_as enforce DocaError-discrete
port_id_is_kept = refl

abbrev garbage : DocaFwd
garbage = record { type = other_type 9; rss_type = 9; member = uninitialised }

kernel_target_is_asked :
    docaify_fwd success 77 fwd_kernel garbage
    ≡ ok (some (record { type = fwd_target_type; rss_type = 9; member = target (some 77) }))
unfolding docaify_fwd enforce_success enforce_success_as enforce DocaError-discrete
kernel_target_is_asked = refl

kernel_target_refused :
    docaify_fwd not_supported 77 fwd_kernel garbage ≡ throws (doca_exception not_supported)
unfolding docaify_fwd enforce_success enforce_success_as enforce DocaError-discrete
kernel_target_refused = refl
