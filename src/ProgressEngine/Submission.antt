-- ===== src/ProgressEngine/Submission.antt =====
-- How often a task is submitted, and that it is either accepted or freed and reported.
use mathlib.Core.Path.{subst}
use native.Mathlib.Decide.{ℕ_discrete, dec_lt}
use shoc.Base.{
  ap, sym, ◌∙◌, ℕ, zero, suc, ◌+◌, ◌-◌, ◌^◌, ◌≤◌, ◌<◌, ◌≡◌, refl, ◌⊎◌, inl, inr, Bool, true, false,
  ◌&&◌, Option, some, arith, ltb, leb, if◌then◌else◌,
}
use shoc.Doca.{DocaError, success, is_again}
use shoc.ProgressEngine.{
  Config, Task, u32, u32_pred, submit_now, submit_delayed, settle, delayed_resubmission,
  submit_task,
}

-- A loop that counts from `first` ends at `n`: all before `n` let it go on, and `n` does not, or is
-- the last that is allowed.
pub record EndsAt (goes_on : ℕ → Bool) (first last n : ℕ) : Type 0 where
  pub reached : first ≤ n
  pub allowed : n ≤ last
  pub retried : (m : ℕ) → first ≤ m → m < n → goes_on m ≡ true
  pub decided : (goes_on n ≡ false) ⊎ (n ≡ last)

EndsAt-here :
    (goes_on : ℕ → Bool) (first last : ℕ)
    → first ≤ last
    → (goes_on first ≡ false) ⊎ (first ≡ last)
    → EndsAt goes_on first last first
EndsAt-here goes_on first last h d = record {
  reached = omega arith;
  allowed = h;
  retried = λ m l k. absurd (omega arith);
  decided = d;
}

EndsAt-later :
    (goes_on : ℕ → Bool) (first last n : ℕ)
    → goes_on first ≡ true
    → EndsAt goes_on (suc first) last n
    → EndsAt goes_on first last n
EndsAt-later goes_on first last n e r = record {
  reached = omega (arith, r.reached);
  allowed = r.allowed;
  retried = λ m h k. elim (ℕ_discrete first m) [
    | yes here ↦ rw (← here) e
    | no beyond ↦ r.retried m (omega arith) k
  ];
  decided = r.decided;
}

-- A loop that goes on after submission `c` if the answer lets it and `c` is not the last one allowed.
module _ (goes_on : ℕ → Bool) (answer : ℕ → DocaError) (last : ℕ) where
  abbrev round : Option (DocaError × ℕ) → ℕ → Option (DocaError × ℕ)
  round rest c = if goes_on c && ltb c last then rest else some (answer c, suc c)

  loop-EndsAt :
      (f : ℕ → ℕ → Option (DocaError × ℕ))
      → (first : ℕ)
      → ((fuel c : ℕ) → first ≤ c → c ≤ last → f (suc fuel) c ≡ round (f fuel (suc c)) c)
      → (fuel c : ℕ) → first ≤ c
      → c ≤ last
      → last < c + fuel
      → (n : ℕ) × (f fuel c ≡ some (answer n, suc n)) × EndsAt goes_on c last n
  loop-EndsAt f first step zero c g h k = absurd (omega arith)
  loop-EndsAt f first step (suc fuel) c g h k =
      go (goes_on c) (dec_lt c last) refl
        (λ l. loop-EndsAt f first step fuel (suc c) (omega arith) l (omega arith))
    where
      go :
          (b : Bool)
          → Dec (c < last)
          → goes_on c ≡ b
          → (c < last
              → (n : ℕ) × (f fuel (suc c) ≡ some (answer n, suc n)) × EndsAt goes_on (suc c) last n)
          → (n : ℕ) × (f (suc fuel) c ≡ some (answer n, suc n)) × EndsAt goes_on c last n
      go false d e rest = (c, step fuel c g h ∙ rw e, EndsAt-here goes_on c last h (inl e))
      go true (no l) e rest = (
        c,
        step fuel c g h ∙ ground (arith, e, l),
        EndsAt-here goes_on c last h (inr (omega arith)),
      )
      go true (yes l) e rest =
          let (n, q, r) = rest l in
          (n, step fuel c g h ∙ ground (arith, e, l, q), EndsAt-later goes_on c last n e r)

submit_now-round :
    (answer : ℕ → DocaError) (limit fuel calls : ℕ)
    → suc limit < 2 ^ 32
    → calls ≤ limit
    → submit_now answer limit (suc fuel) calls calls
      ≡ round
          (λ m. is_again (answer m))
          answer
          limit
          (submit_now answer limit fuel (suc calls) (suc calls))
          calls
unfolding submit_now
submit_now-round answer limit fuel calls w c =
    let e : u32 (calls + 1) ≡ suc calls = omega arith in
    let t : leb (suc calls) limit ≡ ltb calls limit = ground arith in rw (e, t)

-- `submit_task` submits a task until DOCA answers something else than `DOCA_ERROR_AGAIN`, but not
-- more often than `immediate_submission_attempts + 1` times. It ends, unless the configured number
-- is the largest `uint32_t`.
pub submit_now_ends :
    (answer : ℕ → DocaError) (limit : ℕ)
    → suc limit < 2 ^ 32
    → (n : ℕ) × (submit_now answer limit (suc limit) 0 0 ≡ some (answer n, suc n))
      × EndsAt (λ m. is_again (answer m)) 0 limit n
submit_now_ends answer limit w =
    loop-EndsAt (λ m. is_again (answer m)) answer limit (λ fuel c. submit_now answer limit fuel c c)
      0 (λ fuel c g h. submit_now-round answer limit fuel c w h) (suc limit) 0 (omega arith)
      (omega arith) (omega arith)

swap_tests : (a b c : Bool) → (a && (b && c)) ≡ (a && c && b)
swap_tests true true c = ground arith
swap_tests true false c = ground arith
swap_tests false b c = refl

submit_delayed-round :
    (answer : ℕ → DocaError) (has_contexts : ℕ → Bool) (last fuel c : ℕ)
    → suc last - c < 2 ^ 32
    → c ≤ last
    → submit_delayed answer has_contexts (suc fuel) (suc last - c) c
      ≡ round
          (λ m. is_again (answer m) && has_contexts m)
          answer
          last
          (submit_delayed answer has_contexts fuel (suc last - suc c) (suc c))
          c
unfolding submit_delayed
submit_delayed-round answer has_contexts last fuel c w h =
    let e : u32_pred (suc last - c) ≡ suc last - suc c = omega arith in
    let t : ltb 0 (suc last - suc c) ≡ ltb c last = ground arith in
    rw (e, t) (rw (swap_tests (is_again (answer c)) (ltb c last) (has_contexts c)))

-- `delayed_resubmission` goes on while DOCA answers `DOCA_ERROR_AGAIN` and contexts are connected,
-- and submits the task at least once and at most as often as configured, if that is not zero.
pub submit_delayed_ends :
    (answer : ℕ → DocaError) (has_contexts : ℕ → Bool) (attempts calls : ℕ)
    → 0 < attempts
    → attempts < 2 ^ 32
    → (n : ℕ) × (submit_delayed answer has_contexts attempts attempts calls
        ≡ some (answer n, suc n))
      × EndsAt (λ m. is_again (answer m) && has_contexts m) calls (calls + (attempts - 1)) n
submit_delayed_ends answer has_contexts attempts calls p w =
    let last = calls + (attempts - 1) in
    let e : suc last - calls ≡ attempts = omega arith in
    let out =
      loop-EndsAt (λ m. is_again (answer m) && has_contexts m) answer last
        (λ fuel c. submit_delayed answer has_contexts fuel (suc last - c) c) calls
        (λ fuel c g h. submit_delayed-round answer has_contexts last fuel c (omega arith) h)
        attempts calls (omega arith) (omega arith) (omega arith) in
    subst
      (λ (k : ℕ).
        (n : ℕ) × (submit_delayed answer has_contexts attempts k calls ≡ some (answer n, suc n))
        × EndsAt (λ m. is_again (answer m) && has_contexts m) calls last n)
      e out

-- What is left of a task: DOCA has accepted it, or it was freed once and its last error reported.
abbrev pub Settled {ℓ} : {R : Type ℓ} → (DocaError → R → R) → (ℕ → DocaError) → R → Task R → Type ℓ
Settled set_error answer r t =
    (n : ℕ) × (t.submitted ≡ suc n)
    × (((answer n ≡ success) × (t.freed ≡ 0) × (t.reportee ≡ r))
        ⊎ ((answer n ≡ success → ⊥) × (t.freed ≡ 1) × (t.reportee ≡ set_error (answer n) r)))

module _ {ℓ} {R : Type ℓ} (set_error : DocaError → R → R) (answer : ℕ → DocaError) where
  settle-Settled :
      (n k : ℕ) (r : R)
      → Settled set_error answer r
          (settle set_error (answer n, suc n) (record { submitted = k; freed = 0; reportee = r }))
  unfolding settle
  settle-Settled n k r = go (answer n) refl
    where
      go :
          (e : DocaError)
          → answer n ≡ e
          → Settled set_error answer r (
              settle set_error
                (answer n, suc n)
                (record { submitted = k; freed = 0; reportee = r }))
      go success q = rw (q, settle) (n, refl, inl (q, refl, refl))
      go e q = rw (q, settle) (n, refl, inr (λ s. cc, refl, ap (λ x. set_error x r) (sym q)))

  settle-submitted :
      (n k : ℕ) (r : R)
      → (settle set_error
          (answer n, suc n)
          (record { submitted = k; freed = 0; reportee = r })).submitted
        ≡ suc n
  unfolding settle
  settle-submitted n k r = ground arith

  -- A task that is offloaded is either accepted by DOCA, and then neither freed nor reported, or
  -- freed exactly once, and then DOCA's last answer, which is an error, is reported. So it ends
  -- within the configured numbers of attempts, if those are not zero or the largest `uint32_t`.
  pub submit_task-Settled :
      (has_contexts : ℕ → Bool) (cfg : Config) (r : R)
      → suc cfg.immediate_submission_attempts < 2 ^ 32
      → 0 < cfg.resubmission_attempts
      → cfg.resubmission_attempts < 2 ^ 32
      → (t : Task R) × (submit_task set_error answer has_contexts cfg
            (suc cfg.immediate_submission_attempts)
            cfg.resubmission_attempts
            r
          ≡ some t)
        × Settled set_error answer r t
        × (t.submitted ≤ cfg.immediate_submission_attempts + 1 + cfg.resubmission_attempts)
  unfolding submit_task
  submit_task-Settled has_contexts cfg r w p v =
      let (n, q, ends) = submit_now_ends answer cfg.immediate_submission_attempts w in
      rw (q, submit_task) (go n ends (is_again (answer n)) refl)
    where
      go :
          (n : ℕ)
          → EndsAt (λ m. is_again (answer m)) 0 cfg.immediate_submission_attempts n
          → (b : Bool) → is_again (answer n) ≡ b
          → (t : Task R) × ((if is_again (answer n)
                then delayed_resubmission set_error answer has_contexts cfg
                    cfg.resubmission_attempts
                    (record { submitted = suc n; freed = 0; reportee = r })
                else some (
                    settle set_error
                      (answer n, suc n)
                      (record { submitted = suc n; freed = 0; reportee = r })))
              ≡ some t)
            × Settled set_error answer r t
            × (t.submitted ≤ cfg.immediate_submission_attempts + 1 + cfg.resubmission_attempts)
      go n ends true e =
          let (m, q, ends') =
            submit_delayed_ends answer has_contexts cfg.resubmission_attempts (suc n) p v in
          (
            settle set_error (answer m, suc m)
                (record { submitted = suc n; freed = 0; reportee = r }),
            rw e (rw (q, delayed_resubmission)),
            settle-Settled m (suc n) r,
            omega (arith, settle-submitted m (suc n) r, ends.allowed, ends'.allowed),
          )
      go n ends false e = (
        settle set_error (answer n, suc n) (record { submitted = suc n; freed = 0; reportee = r }),
        rw e,
        settle-Settled n (suc n) r,
        omega (arith, settle-submitted n (suc n) r, ends.allowed),
      )
