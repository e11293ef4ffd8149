-- ===== src/AesGcm/Tests.antt =====
-- Instances of the theorems on AES-GCM contexts, and runs.
use mathlib.Core.Path.{subst}
use shoc.Base.{◌≡◌, refl, true, false, some, List, [], ◌∷◌, arith}
use shoc.Doca.{DocaError-discrete, success}
use shoc.Error.{enforce_success, enforce_success_as, enforce}
use shoc.Context.Registry.{in_time}
use shoc.AesGcm.{
  aes_gcm_key_128, aes_gcm_key_256, expected_key_size, create_key, Context, new_context, load_key,
  do_stop_if_able, signal_key_destroyed, stop, clear, clear_handle, move_construct, stop_answered,
}
use shoc.AesGcm.Counting.{
  Event, loads, moves, assigns, clears, stops, step, run, run-new_context-Inv,
}
use shoc.AesGcm.Counting.Stopping.{Inv}
use shoc.AesGcm.Leak.{overwritten_key_blocks_stop}

abbrev load_two : List Event
load_two = loads 16 aes_gcm_key_128 success 1 ∷ loads 32 aes_gcm_key_256 success 2 ∷ []

-- The context stops when both keys are gone.
abbrev stop_early : List Event
stop_early =
    loads 16 aes_gcm_key_128 success 1
    ∷ loads 32 aes_gcm_key_256 success 2
    ∷ stops in_time
    ∷ moves 0
    ∷ clears in_time 1
    ∷ clears in_time 2
    ∷ []

run-new_context-Inv_example : Inv (run stop_early new_context)
run-new_context-Inv_example = run-new_context-Inv stop_early

stops_once : (run stop_early new_context).stops ≡ 0 ∷ []
unfolding run step new_context load_key create_key expected_key_size stop do_stop_if_able
    stop_answered signal_key_destroyed clear clear_handle move_construct enforce_success
    enforce_success_as enforce DocaError-discrete
stops_once = refl

abbrev two_keys : Context
two_keys = record {
  loaded_keys = 2;
  stop_requested = false;
  has_handle = true;
  keys = record { handle = some 1; parent = true } ∷ record { handle = some 2; parent = true } ∷ [];
  destroyed = [];
  stops = [];
  failed_assertions = 0;
}

two_keys-Inv : Inv (run load_two new_context)
two_keys-Inv = run-new_context-Inv load_two

loaded : run load_two new_context ≡ two_keys
unfolding run step new_context load_key create_key expected_key_size enforce_success
    enforce_success_as enforce DocaError-discrete
loaded = refl

abbrev overwrite_and_stop : List Event
overwrite_and_stop = clears in_time 0 ∷ clears in_time 1 ∷ stops in_time ∷ []

overwritten_key_blocks_stop_example : (run (assigns 0 1 ∷ overwrite_and_stop) two_keys).stops ≡ []
overwritten_key_blocks_stop_example =
    overwritten_key_blocks_stop 0 1 1 two_keys overwrite_and_stop
      (subst (λ (c : Context). Inv c) loaded two_keys-Inv) (omega arith) (omega arith) refl refl
