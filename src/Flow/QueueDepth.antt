-- ===== src/Flow/QueueDepth.antt =====
-- What DOCA Flow is told by a sequence of setters of `global_cfg` (shoc/flow.cpp).
use mathlib.Core.Logic.{if_pos, if_neg}
use shoc.Base.{
  ℕ, ◌≡◌, ◌≢◌, refl, ap, ◌∙◌, ◌⊎◌, inl, inr, Option, none, some, List, [], ◌∷◌, ◌++◌, arith, All,
  Bool-cases,
}
use shoc.Doca.{success, is_success}
use shoc.Error.{Exception, Outcome, ok, throws, doca_exception}
use shoc.Error.Laws.{enforce_success-cases}
use shoc.Flow.{
  CfgFunction, CfgFunction-discrete, cfg_set_queue_depth, cfg_set_nr_counters, Call, GlobalSetter,
  set_pipe_queues, set_nr_counters, set_nr_meters, set_nr_acl_collisions, set_mode_args,
  set_queue_depth, set_default_rss, set_nr_shared_resource, set_rss_key, global_call, Cfg, new_cfg,
  SetterAnswers, make_handle, accept_call, ensure_handle_exists, set_option, last_of,
}

-- A sequence of setters, each with what DOCA answers; one that throws changes nothing.
unfoldable pub configure : List (SetterAnswers × GlobalSetter) → Cfg → Cfg
unfolding set_option global_call
configure [] c = c
configure ((a, s) ∷ rest) c = configure rest (set_option a (global_call s) c).1

last_of-append :
    (f : CfgFunction) (l : List Call) (c : Call)
    → c.function ≡ f
    → last_of f (l ++ c ∷ []) ≡ some c.args
unfolding last_of
last_of-append f [] c e = if_pos (CfgFunction-discrete c.function f) e (some c.args) none
last_of-append f (d ∷ l) c e = rw (last_of-append f l c e, last_of) refl

last_of-absent :
    (f : CfgFunction) (l : List Call) → All (λ (c : Call). c.function ≢ f) l → last_of f l ≡ none
unfolding last_of
last_of-absent f [] h = refl
last_of-absent f (c ∷ l) h =
    rw (last_of-absent f l h.1, last_of)
      (if_neg (CfgFunction-discrete c.function f) h.0 (some c.args) none)

never_queue_depth : (s : GlobalSetter) → (global_call s).function ≢ cfg_set_queue_depth
unfolding global_call
never_queue_depth (set_pipe_queues n) e = cc
never_queue_depth (set_nr_counters n) e = cc
never_queue_depth (set_nr_meters n) e = cc
never_queue_depth (set_nr_acl_collisions n) e = cc
never_queue_depth (set_mode_args n) e = cc
never_queue_depth (set_queue_depth n) e = cc
never_queue_depth (set_default_rss n) e = cc
never_queue_depth (set_nr_shared_resource n t) e = cc
never_queue_depth (set_rss_key k n) e = cc

-- A handle is there or is made, and nothing is configured by that; or DOCA does not make one.
make_handle-cases :
    (a : SetterAnswers) (h : Option ℕ) (c : Cfg)
    → ((c' : Cfg) × (make_handle a h c ≡ ok c') × (c'.accepted ≡ c.accepted))
      ⊎ (¬ (a.created ≡ success) × (make_handle a h c ≡ throws (doca_exception a.created)))
unfolding make_handle
make_handle-cases a (some h) c = inl (c, refl, refl)
make_handle-cases a none c = elim (enforce_success-cases a.created) [
  | inl (q, r) ↦ inl (record c { handle = some a.new_handle }, rw (r, make_handle) refl, refl)
  | inr (q, r) ↦ inr (q, rw (r, make_handle) refl)
]

accept_call-cases :
    (a : SetterAnswers) (call : Call) (c' c : Cfg)
    → ((a.answer ≡ success)
        × ((accept_call a call (ok c') c).1.accepted ≡ c'.accepted ++ call ∷ []))
      ⊎ (¬ (a.answer ≡ success) × ((accept_call a call (ok c') c).1.accepted ≡ c'.accepted))
unfolding accept_call
accept_call-cases a call c' c = elim (Bool-cases (is_success a.answer)) [
  | inl e ↦ inl (ground (arith, e), rw e refl)
  | inr e ↦ inr (λ s. ground (arith, e, s), rw e refl)
]

accept_call-throws :
    (a : SetterAnswers) (call : Call) (e : Exception) (c : Cfg)
    → (accept_call a call (throws e) c).1.accepted ≡ c.accepted
unfolding accept_call
accept_call-throws a call e c = refl

-- A setter that DOCA accepts adds its call, and another one none.
set_option-accepted :
    (a : SetterAnswers) (call : Call) (c : Cfg)
    → ((set_option a call c).1.accepted ≡ c.accepted ++ call ∷ [])
      ⊎ (((set_option a call c).1.accepted ≡ c.accepted)
          × ¬ ((a.created ≡ success) × (a.answer ≡ success)))
unfolding set_option ensure_handle_exists
set_option-accepted a call c = elim (make_handle-cases a c.handle c) [
  | inr (n, e) ↦ inr (
    ap (λ (o : Outcome Cfg). (accept_call a call o c).1.accepted) e
        ∙ accept_call-throws a call (doca_exception a.created) c,
    λ s. n s.0,
  )
  | inl (c', e, k) ↦ elim (accept_call-cases a call c' c) [
    | inl (s, g) ↦ inl (
        ap (λ (o : Outcome Cfg). (accept_call a call o c).1.accepted) e
        ∙ g
        ∙ ap (λ (l : List Call). l ++ call ∷ []) k)
    | inr (n, g) ↦
        inr (ap (λ (o : Outcome Cfg). (accept_call a call o c).1.accepted) e ∙ g ∙ k, λ s. n s.1)
  ]
]

All-append : (P : Call → Type 0) (l : List Call) (c : Call) → All P l → P c → All P (l ++ c ∷ [])
All-append P [] c h k = (k, tt)
All-append P (d ∷ l) c h k = (h.0, All-append P l c h.1 k)

-- Not a call for the queue depth.
abbrev Other : Call → Type 0
Other c = c.function ≢ cfg_set_queue_depth

configure-others :
    (ss : List (SetterAnswers × GlobalSetter)) (c : Cfg)
    → All Other c.accepted
    → All Other (configure ss c).accepted
unfolding configure
configure-others [] c h = h
configure-others ((a, s) ∷ rest) c h =
    configure-others rest (set_option a (global_call s) c).1
      (elim (set_option-accepted a (global_call s) c) [
        | inl e ↦ rw e (All-append Other c.accepted (global_call s) h (never_queue_depth s))
        | inr (e, n) ↦ rw e h
      ])

configure-append :
    (ss : List (SetterAnswers × GlobalSetter)) (a : SetterAnswers) (s : GlobalSetter) (c : Cfg)
    → configure (ss ++ (a, s) ∷ []) c ≡ (set_option a (global_call s) (configure ss c)).1
unfolding configure
configure-append [] a s c = refl
configure-append ((b, r) ∷ rest) a s c =
    configure-append rest a s (set_option b (global_call r) c).1

nothing_accepted : All Other new_cfg.accepted
unfolding new_cfg
nothing_accepted = tt

-- Whatever is set on a `global_cfg`, DOCA is never told a queue depth. A call of `set_queue_depth`
-- that DOCA accepts sets the number of counters instead, whatever was set before.
pub set_queue_depth_sets_counters :
    (ss : List (SetterAnswers × GlobalSetter)) (a : SetterAnswers) (n : ℕ)
    → a.created ≡ success
    → a.answer ≡ success
    → (last_of cfg_set_queue_depth (configure ss new_cfg).accepted ≡ none)
      × (last_of cfg_set_nr_counters
            (configure (ss ++ (a, set_queue_depth n) ∷ []) new_cfg).accepted
          ≡ some (n ∷ []))
unfolding global_call
set_queue_depth_sets_counters ss a n s t = (
  last_of-absent cfg_set_queue_depth (configure ss new_cfg).accepted
      (configure-others ss new_cfg nothing_accepted),
  rw (configure-append ss a (set_queue_depth n) new_cfg)
      (elim (set_option-accepted a (global_call (set_queue_depth n)) (configure ss new_cfg)) [
        | inl e ↦ rw e (
            last_of-append cfg_set_nr_counters (configure ss new_cfg).accepted
              (global_call (set_queue_depth n)) refl)
        | inr (e, k) ↦ absurd (k (s, t))
      ]),
)
