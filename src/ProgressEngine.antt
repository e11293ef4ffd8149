-- ===== src/ProgressEngine.antt =====
-- The progress engine (shoc/progress_engine.hpp, shoc/progress_engine.cpp): how tasks are submitted,
-- and its event loop. The leases on it are in a child module.
pub mod Lease
pub mod Submission
pub mod Resubmission
pub mod EventLoop
pub mod Life
mod Tests
use shoc.Base.{
  ℕ, zero, suc, ◌+◌, ◌-◌, ◌%◌, ◌^◌, Bool, true, false, ◌&&◌, not, Option, none, some, List, [], ◌∷◌,
  ltb, leb, if◌then◌else◌,
}
use shoc.Doca.{DocaError, success, is_success, is_again}
use shoc.Error.{Outcome, ok, throws, ◌>>=◌, ◌>>◌, enforce_success}

pub data PollingMode : Type 0 where
  epoll busy : PollingMode

pub record Config : Type 0 where
  pub immediate_submission_attempts : ℕ  -- uint32
  pub resubmission_attempts : ℕ  -- uint32
  pub resubmission_interval : ℕ  -- microseconds
  pub polling : PollingMode

abbrev pub default_config : Config
default_config = record {
  immediate_submission_attempts = 64;
  resubmission_attempts = 64;
  resubmission_interval = 1000;
  polling = epoll;
}

abbrev pub u32 : ℕ → ℕ
u32 n = n % 2 ^ 32

-- `--attempts` on a `uint32_t`
abbrev pub u32_pred : ℕ → ℕ
u32_pred n = u32 (n + (2 ^ 32 - 1))

-- The answers of DOCA to the submissions of one task, by their number.
module _ (answer : ℕ → DocaError) where
  -- The loop of `submit_task`: the last answer and the number of submissions, `none` out of fuel.
  unfoldable pub submit_now : ℕ → ℕ → ℕ → ℕ → Option (DocaError × ℕ)
  submit_now limit zero attempts calls = none
  submit_now limit (suc fuel) attempts calls =
      let again = submit_now limit fuel (u32 (attempts + 1)) (suc calls) in
      if is_again (answer calls) && leb (u32 (attempts + 1)) limit
      then again
      else some (answer calls, suc calls)

  -- The loop of `delayed_resubmission`. `has_contexts` says whether contexts are connected after
  -- each submission, since other fibers run while the timer does.
  unfoldable pub submit_delayed : (ℕ → Bool) → ℕ → ℕ → ℕ → Option (DocaError × ℕ)
  submit_delayed has_contexts zero attempts calls = none
  submit_delayed has_contexts (suc fuel) attempts calls =
      let again = submit_delayed has_contexts fuel (u32_pred attempts) (suc calls) in
      if is_again (answer calls) && (ltb 0 (u32_pred attempts) && has_contexts calls)
      then again
      else some (answer calls, suc calls)

-- What became of a task: how often it was submitted and freed, and what it reports to.
pub record Task {ℓ} (R : Type ℓ) : Type ℓ where
  pub submitted : ℕ
  pub freed : ℕ
  pub reportee : R

module _ {ℓ} {R : Type ℓ} (set_error : DocaError → R → R) where
  -- The end of both functions: a task that was refused for good is freed, and the error reported.
  settle : DocaError × ℕ → Task R → Task R
  settle (err, calls) t =
      if is_success err
      then record t { submitted = calls }
      else record t { submitted = calls; freed = suc t.freed; reportee = set_error err t.reportee }

  -- `delayed_resubmission`, up to its end.
  unfoldable pub delayed_resubmission :
      (ℕ → DocaError) → (ℕ → Bool) → Config → ℕ → Task R → Option (Task R)
  unfolding settle submit_delayed
  delayed_resubmission answer has_contexts cfg fuel t =
      elim (submit_delayed answer has_contexts fuel cfg.resubmission_attempts t.submitted) [
        | none ↦ none
        | some end ↦ some (settle end t)
      ]

  -- `submit_task`, with the fiber that it spawns when DOCA still answers `DOCA_ERROR_AGAIN`.
  unfoldable pub submit_task : (ℕ → DocaError) → (ℕ → Bool) → Config → ℕ → ℕ → R → Option (Task R)
  unfolding settle submit_now delayed_resubmission
  submit_task answer has_contexts cfg fuel delayed_fuel r =
      elim (submit_now answer cfg.immediate_submission_attempts fuel 0 0) [
        | none ↦ none
        | some (err, calls) ↦
            let t : Task R = record { submitted = calls; freed = 0; reportee = r } in
            let later = delayed_resubmission answer has_contexts cfg delayed_fuel t in
            if is_again err then later else some (settle (err, calls) t)
      ]

  -- `status_offload`: a task that cannot be allocated reports the error at once.
  unfoldable pub status_offload :
      DocaError → (ℕ → DocaError) → (ℕ → Bool) → Config → ℕ → ℕ → R → Option (Task R)
  unfolding submit_task
  status_offload allocated answer has_contexts cfg fuel delayed_fuel r =
      if is_success allocated
      then submit_task answer has_contexts cfg fuel delayed_fuel r
      else some (record { submitted = 0; freed = 0; reportee = set_error allocated r })
