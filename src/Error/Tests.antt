-- ===== src/Error/Tests.antt =====
-- Checks against the codes that `context_base::start` expects.
use shoc.Base.{List, [], ◌∷◌, ◌≡◌, refl}
use shoc.Doca.{DocaError, DocaError-discrete, success, in_progress, bad_state}
use shoc.Error.{enforce, enforce_success_among, ok, throws, doca_exception}

abbrev expected : List DocaError
expected = success ∷ in_progress ∷ []

in_progress_expected : enforce_success_among in_progress expected ≡ ok tt
unfolding enforce_success_among enforce DocaError-discrete
in_progress_expected = refl

stopped_unexpected : enforce_success_among bad_state expected ≡ throws (doca_exception bad_state)
unfolding enforce_success_among enforce DocaError-discrete
stopped_unexpected = refl
