-- ===== src/Rdma/Refused.antt =====
-- A request that DOCA refuses to accept (`connection_request` in shoc/rdma.cpp).
use shoc.Base.{
  ℕ, ◌≡◌, refl, ◌∙◌, ==_refl, Bool, true, false, Option, none, some, List, [], ◌∷◌, ◌++◌, arith,
  if◌then◌else◌, contains, contains-append, lookup, Bool-cases, inl, inr,
}
use shoc.Doca.{DocaError, is_success, connection_aborted}
use shoc.Error.{doca_exception}
use shoc.Coro.{Receptable, exception, set_exception, set_error, emplace_value}
use shoc.AccepterQueues.{update}
use shoc.Rdma.{
  Rdma, CmRole, no_role, server, client, is_server, has_role, is_some, failed_awaitable,
  PortAnswers, connect, listen, connection_request, connection_established, connection_failure,
  connection_disconnected, request_from, request_at, answer_request, complete,
  take_connection_receptable, take_listener, take_listener_at, get_port_from_connection,
}
use shoc.Rdma.History.{
  Event, connects, listens, requested, established, failed, disconnected, waits, step, run,
  step-Inv,
}
use shoc.Rdma.History.Invariant.{Inv, unless_ended}
use shoc.Rdma.History.Pointers.{port, conn}

-- It was given the error `err` as its result, and was not resumed.
pub record Stranded (err : DocaError) (a : ℕ) (s : Rdma) : Type 0 where
  pub has_error : (s.cells a).value_ ≡ exception (some (doca_exception err))
  pub has_result : contains a s.completed ≡ true
  pub asleep : contains a s.resumed ≡ false

if-Stranded :
    (err : DocaError) (a : ℕ) (b : Bool) (s t : Rdma)
    → Stranded err a s
    → Stranded err a t
    → Stranded err a (if b then s else t)
if-Stranded err a true s t v w = v
if-Stranded err a false s t v w = w

module _ (err : DocaError) (a : ℕ) where
  completed-Stranded :
      (s t : Rdma) (b : ℕ)
      → t.completed ≡ s.completed ++ b ∷ []
      → t.resumed ≡ s.resumed
      → (t.cells a).value_ ≡ (s.cells a).value_
      → Stranded err a s
      → Stranded err a t
  completed-Stranded s t b e r k w = record {
    has_error = k ∙ w.has_error;
    has_result = rw e (ground (arith, contains-append a s.completed (b ∷ []), w.has_result));
    asleep = rw r w.asleep;
  }

  -- What is made or completed is another receptable.
  fresh_kept :
      (r : Receptable ℕ) (s : Rdma)
      → Inv s
      → Stranded err a s
      → (update s.cells s.next r a).value_ ≡ (s.cells a).value_
  fresh_kept r s v w = ground (arith, v.owned.old a w.has_result)

  open_kept :
      (b : ℕ) (r : Receptable ℕ) (s : Rdma)
      → contains b s.completed ≡ false
      → Stranded err a s
      → (update s.cells b r a).value_ ≡ (s.cells a).value_
  open_kept b r s h w = ground (arith, h, w.has_result)

  failed_awaitable-Stranded :
      (e : DocaError) (s : Rdma) → Inv s → Stranded err a s → Stranded err a (failed_awaitable e s)
  unfolding failed_awaitable
  failed_awaitable-Stranded e s v w = completed-Stranded s _ s.next refl refl (fresh_kept _ s v w) w

  connect-Stranded :
      (answer : DocaError) (c : ℕ) (s : Rdma)
      → Inv s
      → Stranded err a s
      → Stranded err a (connect answer c s)
  unfolding connect
  connect-Stranded answer c s v w =
      if-Stranded err a (has_role s.cm_role) _ _ (failed_awaitable-Stranded _ s v w) (
        if-Stranded err a (is_success answer) _ _
          (record {
            has_error = fresh_kept _ s v w ∙ w.has_error;
            has_result = w.has_result;
            asleep = w.asleep;
          })
          (completed-Stranded s _ s.next refl refl (fresh_kept _ s v w) w))

  listen-Stranded :
      (answer : DocaError) (p : ℕ) (s : Rdma)
      → Inv s
      → Stranded err a s
      → Stranded err a (listen answer p s)
  unfolding listen
  listen-Stranded answer p s v w =
      if-Stranded err a (is_some (lookup p s.listeners)) _ _ (failed_awaitable-Stranded _ s v w) (
        if-Stranded err a (is_success answer) _ _
          (record {
            has_error = fresh_kept _ s v w ∙ w.has_error;
            has_result = w.has_result;
            asleep = w.asleep;
          })
          (failed_awaitable-Stranded answer s v w))

  request_at-Stranded :
      (accepted : DocaError) (c p : ℕ) (dest : Option ℕ) (s : Rdma)
      → Inv s
      → lookup p s.listeners ≡ dest
      → Stranded err a s
      → Stranded err a (request_at accepted c p dest s)
  unfolding request_at answer_request
  request_at-Stranded accepted c p none s v h w = record {
    has_error = w.has_error;
    has_result = w.has_result;
    asleep = w.asleep;
  }
  request_at-Stranded accepted c p (some b) s v h w =
      if-Stranded err a (is_success accepted) _ _
        (record { has_error = w.has_error; has_result = w.has_result; asleep = w.asleep })
        (completed-Stranded s _ b refl refl (open_kept b _ s (v.owned.open_ones (port p) b h) w) w)

  request_from-Stranded :
      (accepted : DocaError) (c : ℕ) (p : Option ℕ) (s : Rdma)
      → Inv s
      → Stranded err a s
      → Stranded err a (request_from accepted c p s)
  unfolding request_from
  request_from-Stranded accepted c none s v w = record {
    has_error = w.has_error;
    has_result = w.has_result;
    asleep = w.asleep;
  }
  request_from-Stranded accepted c (some p) s v w =
      request_at-Stranded accepted c p (lookup p s.listeners) s v refl w

  connection_request-Stranded :
      (q : PortAnswers) (accepted : DocaError) (c : ℕ) (s : Rdma)
      → Inv s
      → Stranded err a s
      → Stranded err a (unless_ended (connection_request q accepted c s) s)
  unfolding connection_request
  connection_request-Stranded q accepted c s v w = elim (Bool-cases (is_server s.cm_role)) [
    | inl e ↦ rw e (request_from-Stranded accepted c (get_port_from_connection q) s v w)
    | inr e ↦ rw e w
  ]

  -- Only what has no result yet is resumed.
  woken-Stranded :
      (s t : Rdma) (b : ℕ)
      → t.completed ≡ s.completed ++ b ∷ []
      → t.resumed ≡ s.resumed ++ b ∷ []
      → contains b s.completed ≡ false
      → (t.cells a).value_ ≡ (s.cells a).value_
      → Stranded err a s
      → Stranded err a t
  woken-Stranded s t b e r h k w = record {
    has_error = k ∙ w.has_error;
    has_result = rw e (ground (arith, contains-append a s.completed (b ∷ []), w.has_result));
    asleep = rw r (ground (arith, contains-append a s.resumed (b ∷ []), w.asleep, w.has_result, h));
  }

  module _ (set : Receptable ℕ → Receptable ℕ) where
    complete_listener-Stranded :
        (p : ℕ) (dest : Option ℕ) (s : Rdma)
        → Inv s
        → lookup p s.listeners ≡ dest
        → Stranded err a s
        → Stranded err a (complete set (take_listener_at p dest s))
    unfolding complete
    complete_listener-Stranded p none s v h w = w
    complete_listener-Stranded p (some b) s v h w =
        let no_result = v.owned.open_ones (port p) b h in
        woken-Stranded s _ b refl refl no_result (open_kept b _ s no_result w) w

    complete_from-Stranded :
        (p : Option ℕ) (s : Rdma)
        → Inv s
        → Stranded err a s
        → Stranded err a (complete set (take_listener p s))
    unfolding complete
    complete_from-Stranded none s v w = w
    complete_from-Stranded (some p) s v w = complete_listener-Stranded p _ s v refl w

    complete_user-Stranded :
        (c : ℕ) (dest : Option ℕ) (s : Rdma)
        → Inv s
        → s.user_data c ≡ dest
        → Stranded err a s
        → Stranded err a (complete set (dest, record s { user_data = update s.user_data c none }))
    unfolding complete
    complete_user-Stranded c none s v h w = record {
      has_error = w.has_error;
      has_result = w.has_result;
      asleep = w.asleep;
    }
    complete_user-Stranded c (some b) s v h w =
        let no_result = v.owned.open_ones (conn c) b h in
        woken-Stranded s _ b refl refl no_result (open_kept b _ s no_result w) w

    complete-Stranded :
        (q : PortAnswers) (c : ℕ) (r : CmRole) (s : Rdma)
        → s.cm_role ≡ r
        → Inv s
        → Stranded err a s
        → Stranded err a (complete set (take_connection_receptable q c s))
    unfolding complete take_connection_receptable
    complete-Stranded q c server s e v w =
        rw (e, take_connection_receptable)
          (complete_from-Stranded (get_port_from_connection q) s v w)
    complete-Stranded q c client s e v w =
        rw (e, take_connection_receptable) (complete_user-Stranded c (s.user_data c) s v refl w)
    complete-Stranded q c no_role s e v w = rw (e, take_connection_receptable) w

  step-Stranded : (e : Event) (s : Rdma) → Inv s → Stranded err a s → Stranded err a (step e s)
  unfolding step connection_established connection_failure connection_disconnected
  step-Stranded (connects answer c) s v w = connect-Stranded answer c s v w
  step-Stranded (listens answer p) s v w = listen-Stranded answer p s v w
  step-Stranded (requested q accepted c) s v w = connection_request-Stranded q accepted c s v w
  step-Stranded (established q c) s v w = complete-Stranded (emplace_value c) q c _ s refl v w
  step-Stranded (failed q c) s v w =
      complete-Stranded (set_error connection_aborted) q c _ s refl v w
  step-Stranded (disconnected c) s v w = w
  step-Stranded (waits h b) s v w = record {
    has_error = ground (arith, w.has_error);
    has_result = w.has_result;
    asleep = w.asleep;
  }

  run-Stranded : (es : List Event) (s : Rdma) → Inv s → Stranded err a s → Stranded err a (run es s)
  unfolding run
  run-Stranded [] s v w = w
  run-Stranded (e ∷ es) s v w = run-Stranded es (step e s) (step-Inv e s v) (step-Stranded e s v w)

unresumed :
    (a : ℕ) (s : Rdma) → Inv s → contains a s.completed ≡ false → contains a s.resumed ≡ false
unresumed a s v h = elim (Bool-cases (contains a s.resumed)) [
  | inl e ↦ ground (arith, h, v.owned.resumed_with_result a e)
  | inr e ↦ e
]

refused-Stranded :
    (q : PortAnswers) (accepted : DocaError) (c p a : ℕ) (s : Rdma)
    → Inv s
    → s.cm_role ≡ server
    → get_port_from_connection q ≡ some p
    → lookup p s.listeners ≡ some a
    → is_success accepted ≡ false
    → Stranded accepted a (step (requested q accepted c) s)
unfolding step connection_request request_from request_at answer_request set_error set_exception
refused-Stranded q accepted c p a s v r g l e =
    rw (r, g, request_from, l, request_at, e)
      (record {
        has_error = rw (==_refl a) refl;
        has_result = ground (arith, contains-append a s.completed (a ∷ []));
        asleep = unresumed a s v (v.owned.open_ones (port p) a l);
      })

-- If DOCA refuses to accept a connection to a port that is listened on, then the receptable for that
-- port is given DOCA's error as its result and keeps it, and the coroutine that waits for it is not
-- resumed, whatever happens afterwards. The state satisfies the invariant that every history keeps.
pub refused_accept_strands :
    (q : PortAnswers) (accepted : DocaError) (c p a : ℕ) (s : Rdma) (es : List Event)
    → Inv s
    → s.cm_role ≡ server
    → get_port_from_connection q ≡ some p
    → lookup p s.listeners ≡ some a
    → is_success accepted ≡ false
    → let t = run (requested q accepted c ∷ es) s in
      ((t.cells a).value_ ≡ exception (some (doca_exception accepted)))
      × (contains a t.completed ≡ true)
      × (contains a t.resumed ≡ false)
unfolding run
refused_accept_strands q accepted c p a s es v r g l e =
    let start = refused-Stranded q accepted c p a s v r g l e in
    let w =
      run-Stranded accepted a es (step (requested q accepted c) s)
        (step-Inv (requested q accepted c) s v) start in
    (w.has_error, w.has_result, w.asleep)
