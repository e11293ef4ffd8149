-- ===== src/Doca.antt =====
-- The DOCA constants that the source names. DOCA itself is not part of the repository: every call
-- of it is an argument of the definitions, by what the call returns.
use native.Mathlib.Decide.{ℕ_discrete}
use shoc.Base.{ℕ, Bool, true, false}

-- `doca_error_t`: the codes that the source names, and `other` for all the rest.
pub data DocaError : Type 0 where
  success unexpected again in_use not_connected in_progress : DocaError
  empty bad_state not_supported invalid_value : DocaError
  already_exist connection_aborted not_found : DocaError
  other : ℕ → DocaError

DocaError-discrete_lem : Discrete DocaError
DocaError-discrete_lem = hlevel ℕ_discrete

unfoldable pub DocaError-discrete : Discrete DocaError
unfolding DocaError-discrete_lem
DocaError-discrete = DocaError-discrete_lem

abbrev pub is_success : DocaError → Bool
is_success success = true
is_success _ = false

abbrev pub is_again : DocaError → Bool
is_again again = true
is_again _ = false

abbrev pub is_in_progress : DocaError → Bool
is_in_progress in_progress = true
is_in_progress _ = false

-- `doca_ctx_states`
pub data CtxState : Type 0 where
  idle starting running stopping : CtxState
