-- ===== src/ProgressEngine/Tests.antt =====
-- Instances of the theorems on the progress engine.
use shoc.ProgressEngine.Life.{destroy, stop_and_drain, notification_call}
use shoc.Base.{
  ℕ, zero, suc, ◌-◌, ◌≡◌, refl, Bool, true, Option, none, some, List, [], ◌∷◌, arith, ◌==◌,
  if◌then◌else◌,
}
use shoc.Doca.{DocaError, DocaError-discrete, success, again, is_again, not_connected}
use shoc.Error.{ok, terminates, doca_exception, enforce_success, enforce_success_as, enforce}
use shoc.Coro.{create_empty}
use shoc.Coro.Meeting.{Meeting, suspended, raises, Completion}
use shoc.ProgressEngine.{default_config, epoll, Task, submit_now, submit_delayed}
use shoc.ProgressEngine.Submission.{Settled, submit_task-Settled}
use shoc.ProgressEngine.Resubmission.{zero_attempts_go_on, delayed_failure_strands}
use shoc.ProgressEngine.Lease.{
  Leases, Op, makes, copies, moves, clears, assigns_copy, assigns_move, run,
}
use shoc.ProgressEngine.Lease.Counting.{Counted, run-Counted}
use shoc.ProgressEngine.EventLoop.{
  Environment, readable, idle_engine, round, drain, in_use as loop_in_use, thrown,
}
use shoc.ProgressEngine.EventLoop

-- DOCA takes the task at the third submission.
abbrev third : ℕ → DocaError
third zero = again
third (suc zero) = again
third (suc (suc n)) = success

third_runs : submit_now third 64 65 0 0 ≡ some (success, 3)
unfolding submit_now
third_runs = refl

always : ℕ → DocaError
always n = again

always_again : (n : ℕ) → is_again (always n) ≡ true
unfolding always
always_again n = refl

abbrev connected : ℕ → Bool
connected n = true

-- A reportee that keeps the last error.
abbrev keep_error : DocaError → Option DocaError → Option DocaError
keep_error e r = some e

submit_task-Settled_example : (t : Task (Option DocaError)) × Settled keep_error third none t
submit_task-Settled_example =
    let out =
      submit_task-Settled keep_error third connected default_config none (omega arith) (omega arith)
        (omega arith) in
    (out.0, out.2)

zero_attempts_go_on_example : submit_delayed always connected 1000 0 0 ≡ none
zero_attempts_go_on_example =
    zero_attempts_go_on always connected 1000 0 always_again (λ n. refl) (omega arith)

-- Coroutine 4 waits for a task whose resubmission is refused.
abbrev waiting : Task (Meeting ℕ)
unfolding create_empty
waiting = record {
  submitted = 65;
  freed = 0;
  reportee = record {
    dest = record create_empty { waiter_ = some 4 };
    consumer = suspended 4;
    resumptions = [];
  };
}

abbrev refuse : ℕ → DocaError
refuse n = not_connected

throw_it : DocaError → Completion ℕ
throw_it e = raises (doca_exception e)

delayed_failure_strands_example : (t : Task (Meeting ℕ)) × (t.reportee.consumer ≡ suspended 4)
unfolding waiting
delayed_failure_strands_example =
    let out =
      delayed_failure_strands throw_it refuse connected default_config waiting 4 (omega arith)
        (omega arith) (λ n. refl) refl in
    (out.0, out.3)

no_leases : Leases
no_leases = record { leases = []; fibers = λ _. 0; errors = 0; cancelled = [] }

no_leases-Counted : Counted no_leases
unfolding no_leases
no_leases-Counted = record { exact = λ e. refl }

abbrev lease_ops : List Op
lease_ops =
    makes (some 1)
    ∷ copies 0
    ∷ makes none
    ∷ moves 0
    ∷ assigns_copy 2 1
    ∷ assigns_move 1 3
    ∷ clears 2
    ∷ []

lease_run : (run connected lease_ops no_leases).fibers 1 ≡ 1
unfolding run no_leases
lease_run = refl

run-Counted_example :
    Counted (run connected lease_ops no_leases)
    × ((run connected lease_ops no_leases).errors ≡ no_leases.errors)
run-Counted_example = run-Counted connected lease_ops no_leases no_leases-Counted

-- A world in which each wait lets one of the registered fibers end.
abbrev countdown : Environment ℕ
countdown = record {
  registered_fibers = λ w. w;
  no_contexts = λ w. true;
  progress = λ w. (w, 0);
  stop_all = λ w. w;
  requested = λ n w. success;
  cleared = λ n w. success;
  wait = λ n w. (w - 1, readable);
  yield = λ w. w;
}

loop_ends : EventLoop.run countdown epoll 1 6 0 5 ≡ some (0, idle_engine)
unfolding EventLoop.run loop_in_use round drain
loop_ends = refl

-- The third notification cannot be cleared: the exception leaves the loop with two fibers left.
refused_clear_leaves :
    EventLoop.run
      (record countdown { cleared = λ n w. if n == 2 then not_connected else success })
      epoll
      1
      6
      0
      5
    ≡ some (2, thrown not_connected)
unfolding EventLoop.run loop_in_use round drain
refused_clear_leaves = refl

-- The same, with a context that is connected for as long as the number is not zero.
abbrev connected_world : Environment ℕ
connected_world = record countdown { no_contexts = λ w. w == 0; stop_all = λ w. w - 1 }

failed_clear_terminates : destroy connected_world 3 not_connected 2 ≡ some terminates
unfolding destroy notification_call enforce_success enforce_success_as enforce DocaError-discrete
failed_clear_terminates = refl

stops_children : destroy connected_world 3 success 2 ≡ some (ok 1)
unfolding destroy stop_and_drain drain notification_call enforce_success enforce_success_as enforce
    DocaError-discrete
stops_children = refl
