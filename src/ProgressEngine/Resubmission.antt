-- ===== src/ProgressEngine/Resubmission.antt =====
-- Two corners of `delayed_resubmission`: zero configured attempts, and a failure that comes after the
-- coroutine has suspended.
use shoc.Base.{ℕ, zero, suc, ◌-◌, ◌^◌, ◌<◌, ◌≡◌, refl, Bool, true, false, none, some, arith, ltb}
use shoc.Doca.{DocaError, is_success, is_again}
use shoc.Error.{ok}
use shoc.Coro.{Receptable, await_ready}
use shoc.Coro.Meeting.{Completion, suspended, Meeting, report, write, gives, raises}
use shoc.ProgressEngine.{Config, Task, u32_pred, submit_delayed, delayed_resubmission}
use shoc.ProgressEngine.Submission.{submit_delayed_ends}

module _ (answer : ℕ → DocaError) (has_contexts : ℕ → Bool) where
  counts_down :
      (fuel attempts calls : ℕ)
      → ((n : ℕ) → is_again (answer n) ≡ true)
      → ((n : ℕ) → has_contexts n ≡ true)
      → fuel < attempts
      → attempts < 2 ^ 32
      → submit_delayed answer has_contexts fuel attempts calls ≡ none
  unfolding submit_delayed
  counts_down zero attempts calls a c h w = refl
  counts_down (suc fuel) attempts calls a c h w =
      let e : u32_pred attempts ≡ attempts - 1 = omega arith in
      let t : ltb 0 (attempts - 1) ≡ true = ground arith in
      rw (e, t, a calls, c calls)
        (counts_down fuel (attempts - 1) (suc calls) a c (omega arith) (omega arith))

  -- With zero configured attempts the counter wraps: while DOCA answers `DOCA_ERROR_AGAIN` and
  -- contexts are connected, the loop has not ended after any number of submissions below 2 ^ 32.
  pub zero_attempts_go_on :
      (fuel calls : ℕ)
      → ((n : ℕ) → is_again (answer n) ≡ true)
      → ((n : ℕ) → has_contexts n ≡ true)
      → fuel < 2 ^ 32
      → submit_delayed answer has_contexts fuel 0 calls ≡ none
  unfolding submit_delayed
  zero_attempts_go_on zero calls a c h = refl
  zero_attempts_go_on (suc fuel) calls a c h =
      rw (a calls, c calls)
        (counts_down fuel (2 ^ 32 - 1) (suc calls) a c (omega arith) (omega arith))

write_ready {ℓ} :
    {T : Type ℓ} (c : Completion T) (r : Receptable T) → await_ready (some (write c r)) ≡ ok true
unfolding await_ready write
write_ready (gives v) r = refl
write_ready (raises e) r = refl

-- A coroutine that has suspended on a task whose delayed resubmission fails stays suspended: the
-- error stands in its receptable, so that it need not have waited, but nothing resumes it.
pub delayed_failure_strands {ℓ} :
    {T : Type ℓ} (completion : DocaError → Completion T) (answer : ℕ → DocaError)
    (has_contexts : ℕ → Bool) (cfg : Config) (t : Task (Meeting T)) (h : ℕ)
    → 0 < cfg.resubmission_attempts
    → cfg.resubmission_attempts < 2 ^ 32
    → ((n : ℕ) → is_success (answer n) ≡ false)
    → t.reportee.consumer ≡ suspended h
    → (t' : Task (Meeting T)) × (delayed_resubmission
          (λ e. report (completion e))
          answer
          has_contexts
          cfg
          cfg.resubmission_attempts
          t
        ≡ some t')
      × (t'.freed ≡ suc t.freed)
      × (t'.reportee.consumer ≡ suspended h)
      × (await_ready (some t'.reportee.dest) ≡ ok true)
unfolding delayed_resubmission report await_ready write
delayed_failure_strands completion answer has_contexts cfg t h p w bad waits =
    let (n, q, ends) =
      submit_delayed_ends answer has_contexts cfg.resubmission_attempts t.submitted p w in
    rw (q, delayed_resubmission, bad n)
      (
        record {
          submitted = suc n;
          freed = suc t.freed;
          reportee = report (completion (answer n)) t.reportee;
        },
        refl,
        refl,
        waits,
        write_ready (completion (answer n)) t.reportee.dest,
      )
