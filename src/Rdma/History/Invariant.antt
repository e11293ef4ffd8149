-- ===== src/Rdma/History/Invariant.antt =====
-- Every operation of the connection manager (shoc/rdma.cpp) keeps its receptables in order.
use shoc.Base.{
  ℕ, ◌≡◌, refl, Bool, true, false, Option, none, some, List, [], ◌∷◌, ◌++◌, arith, if◌then◌else◌,
  contains, contains-append, lookup, insert, erase, lookup-insert, lookup-erase, Bool-cases, inl,
  inr,
}
use shoc.Doca.{DocaError, is_success, bad_state, already_exist}
use shoc.Error.{Outcome, ok}
use shoc.Coro.{Receptable, has_value, create_empty, from_error, set_error}
use shoc.AccepterQueues.{update}
use shoc.Rdma.{
  Rdma, failed_awaitable, is_some, request_at, take_listener_at, take_listener, CmRole, no_role,
  server, client, is_server, has_role, PortAnswers, new_rdma, connect, listen, connection_request,
  request_from, answer_request, complete, take_connection_receptable, get_port_from_connection,
}
use shoc.Rdma.History.Pointers.{
  Key, port, conn, same_key, Owned, Owned-created, Owned-failed, Owned-taken, Owned-dropped,
  Owned-woken,
}

-- A failed assertion ends the program, and the state stays as it is.
abbrev pub unless_ended : Outcome Rdma → Rdma → Rdma
unless_ended (ok t) s = t
unless_ended _ s = s

-- What the context can reach a receptable by.
abbrev pub reach : List (ℕ × ℕ) → (ℕ → Option ℕ) → Key → Option ℕ
reach l u (port p) = lookup p l
reach l u (conn c) = u c

abbrev pub pointer : Rdma → Key → Option ℕ
pointer s = reach s.listeners s.user_data

reach-insert :
    (l : List (ℕ × ℕ)) (u : ℕ → Option ℕ) (p a : ℕ) (j : Key)
    → reach (insert p a l) u j ≡ (if same_key (port p) j then some a else reach l u j)
reach-insert l u p a (port q) = lookup-insert p q a l
reach-insert l u p a (conn c) = refl

reach-erase :
    (l : List (ℕ × ℕ)) (u : ℕ → Option ℕ) (p : ℕ) (j : Key)
    → reach (erase p l) u j ≡ (if same_key (port p) j then none else reach l u j)
reach-erase l u p (port q) = lookup-erase p q l
reach-erase l u p (conn c) = refl

reach-update :
    (l : List (ℕ × ℕ)) (u : ℕ → Option ℕ) (c : ℕ) (v : Option ℕ) (j : Key)
    → reach l (update u c v) j ≡ (if same_key (conn c) j then v else reach l u j)
reach-update l u c v (port q) = refl
reach-update l u c v (conn d) = refl

pub record Inv (s : Rdma) : Type 0 where
  pub owned : Owned (pointer s) s.next s.completed s.resumed
  pub filled : (a : ℕ) → has_value (s.cells a) ≡ contains a s.completed
  pub listening : (p a : ℕ) → lookup p s.listeners ≡ some a → s.cm_role ≡ server

nothing_reached : (k : Key) (a : ℕ) → pointer new_rdma k ≡ some a → ⊥
unfolding new_rdma
nothing_reached (port p) a h = cc
nothing_reached (conn c) a h = cc

pub new_rdma-Inv : Inv new_rdma
unfolding new_rdma has_value create_empty
new_rdma-Inv = record {
  owned = record {
    allocated = λ k a h. absurd (nothing_reached k a h);
    open_ones = λ k a h. refl;
    apart = λ k j a h g. absurd (nothing_reached k a h);
    old = λ a h. cc;
    completed_once = tt;
    resumed_once = tt;
    resumed_with_result = λ a h. cc;
  };
  filled = λ a. refl;
  listening = λ p a h. cc;
}

if-Inv :
    (b : Bool) (s t : Rdma) → (b ≡ true → Inv s) → (b ≡ false → Inv t) → Inv (if b then s else t)
if-Inv true s t v w = v refl
if-Inv false s t v w = w refl

-- An awaitable with a result.
failed_awaitable-Inv : (e : DocaError) (s : Rdma) → Inv s → Inv (failed_awaitable e s)
unfolding failed_awaitable has_value from_error
failed_awaitable-Inv e s v = record {
  owned = Owned-failed v.owned;
  filled = λ a. ground (arith, v.filled a, contains-append a s.completed (s.next ∷ []));
  listening = v.listening;
}

no_listeners :
    (s : Rdma) → Inv s → has_role s.cm_role ≡ false → (p a : ℕ) → lookup p s.listeners ≡ some a → ⊥
no_listeners s v r p a h = ground (arith, v.listening p a h)

fresh_cell :
    (s : Rdma)
    → Inv s
    → (a : ℕ) → has_value (update s.cells s.next create_empty a) ≡ contains a s.completed
unfolding has_value create_empty
fresh_cell s v a = elim (Bool-cases (contains a s.completed)) [
  | inl e ↦ ground (arith, v.filled a, v.owned.old a e)
  | inr e ↦ ground (arith, v.filled a)
]

pub connect-Inv : (answer : DocaError) (c : ℕ) (s : Rdma) → Inv s → Inv (connect answer c s)
unfolding connect failed_awaitable from_error set_error create_empty
connect-Inv answer c s v =
    if-Inv (has_role s.cm_role) _ _ (λ r. failed_awaitable-Inv bad_state s v)
      λ r.
        if-Inv (is_success answer) _ _
          (λ e. record {
            owned =
                Owned-created v.owned _ (conn c)
                  (reach-update s.listeners s.user_data c (some s.next));
            filled = fresh_cell s v;
            listening = λ p a h. absurd (no_listeners s v r p a h);
          })
          (λ e. failed_awaitable-Inv answer s v)

pub listen-Inv : (answer : DocaError) (p : ℕ) (s : Rdma) → Inv s → Inv (listen answer p s)
unfolding listen
listen-Inv answer p s v =
    if-Inv (is_some (lookup p s.listeners)) _ _ (λ r. failed_awaitable-Inv already_exist s v)
      λ r.
        if-Inv (is_success answer) _ _
          (λ e. record {
            owned =
                Owned-created v.owned _ (port p) (reach-insert s.listeners s.user_data p s.next);
            filled = fresh_cell s v;
            listening = λ q a h. refl;
          })
          (λ e. failed_awaitable-Inv answer s v)

-- A receptable that can be reached is given a result and is out of reach then.
taken-filled :
    (s : Rdma) (b : ℕ) (r : Receptable ℕ)
    → Inv s
    → has_value r ≡ true
    → (a : ℕ) → has_value (update s.cells b r a) ≡ contains a (s.completed ++ b ∷ [])
taken-filled s b r v h a = ground (arith, v.filled a, contains-append a s.completed (b ∷ []))

listening-erase :
    (s : Rdma) (p : ℕ)
    → Inv s
    → (q a : ℕ) → lookup q (erase p s.listeners) ≡ some a
    → s.cm_role ≡ server
listening-erase s p v q a h = ground (arith, lookup-erase p q s.listeners, v.listening q a)

answer_request-Inv :
    (accepted : DocaError) (c p b : ℕ) (s : Rdma)
    → Inv s
    → lookup p s.listeners ≡ some b
    → Inv (answer_request accepted c p b s)
unfolding answer_request set_error has_value
answer_request-Inv accepted c p b s v h =
    if-Inv (is_success accepted) _ _
      (λ e. record { owned = v.owned; filled = v.filled; listening = v.listening })
      (λ e. record {
        owned = Owned-taken v.owned _ (port p) b (reach-erase s.listeners s.user_data p) h;
        filled = taken-filled s b _ v refl;
        listening = listening-erase s p v;
      })

request_at-Inv :
    (accepted : DocaError) (c p : ℕ) (dest : Option ℕ) (s : Rdma)
    → Inv s
    → lookup p s.listeners ≡ dest
    → Inv (request_at accepted c p dest s)
unfolding request_at
request_at-Inv accepted c p none s v h = record {
  owned = v.owned;
  filled = v.filled;
  listening = v.listening;
}
request_at-Inv accepted c p (some b) s v h = answer_request-Inv accepted c p b s v h

request_from-Inv :
    (accepted : DocaError) (c : ℕ) (p : Option ℕ) (s : Rdma)
    → Inv s
    → Inv (request_from accepted c p s)
unfolding request_from
request_from-Inv accepted c none s v = record {
  owned = v.owned;
  filled = v.filled;
  listening = v.listening;
}
request_from-Inv accepted c (some p) s v = request_at-Inv accepted c p _ s v refl

pub connection_request-Inv :
    (q : PortAnswers) (accepted : DocaError) (c : ℕ) (s : Rdma)
    → Inv s
    → Inv (unless_ended (connection_request q accepted c s) s)
unfolding connection_request
connection_request-Inv q accepted c s v = elim (Bool-cases (is_server s.cm_role)) [
  | inl e ↦ rw e (request_from-Inv accepted c (get_port_from_connection q) s v)
  | inr e ↦ rw e v
]

module _ (set : Receptable ℕ → Receptable ℕ)
    (gives_result : (r : Receptable ℕ) → has_value (set r) ≡ true) where
  complete_listener-Inv :
      (p : ℕ) (dest : Option ℕ) (s : Rdma)
      → Inv s
      → lookup p s.listeners ≡ dest
      → Inv (complete set (take_listener_at p dest s))
  unfolding complete
  complete_listener-Inv p none s v h = v
  complete_listener-Inv p (some b) s v h = record {
    owned = Owned-woken v.owned _ (port p) b (reach-erase s.listeners s.user_data p) h;
    filled = taken-filled s b _ v (gives_result (s.cells b));
    listening = listening-erase s p v;
  }

  complete_from-Inv : (p : Option ℕ) (s : Rdma) → Inv s → Inv (complete set (take_listener p s))
  unfolding complete
  complete_from-Inv none s v = v
  complete_from-Inv (some p) s v = complete_listener-Inv p _ s v refl

  complete_user-Inv :
      (c : ℕ) (dest : Option ℕ) (s : Rdma)
      → Inv s
      → s.user_data c ≡ dest
      → Inv (complete set (dest, record s { user_data = update s.user_data c none }))
  unfolding complete
  complete_user-Inv c none s v h = record {
    owned = Owned-dropped v.owned _ (conn c) (reach-update s.listeners s.user_data c none);
    filled = v.filled;
    listening = v.listening;
  }
  complete_user-Inv c (some b) s v h = record {
    owned = Owned-woken v.owned _ (conn c) b (reach-update s.listeners s.user_data c none) h;
    filled = taken-filled s b _ v (gives_result (s.cells b));
    listening = v.listening;
  }

  pub complete-Inv :
      (q : PortAnswers) (c : ℕ) (r : CmRole) (s : Rdma)
      → s.cm_role ≡ r
      → Inv s
      → Inv (complete set (take_connection_receptable q c s))
  unfolding complete take_connection_receptable
  complete-Inv q c server s e v =
      rw (e, take_connection_receptable) (complete_from-Inv (get_port_from_connection q) s v)
  complete-Inv q c client s e v =
      rw (e, take_connection_receptable) (complete_user-Inv c (s.user_data c) s v refl)
  complete-Inv q c no_role s e v = rw (e, take_connection_receptable) v
