-- ===== src/AccepterQueues/Tests.antt =====
-- Instances of the theorems on accepter queues, with numbers for messages.
use shoc.Base.{ℕ, ◌≡◌, refl, true, List, [], ◌∷◌, arith}
use shoc.Coro.{payload}
use shoc.AccepterQueues.{Queues, Call, accepts, supplies, waits, new, run, disconnect}
use shoc.AccepterQueues.Fifo.{accept_gets}
use shoc.AccepterQueues.Disconnect.{disconnect_drains, drained_for_good, disconnect_refuses}

-- Coroutine 7 waits for the first message, and a second accepter gets the second message.
abbrev calls : List (Call ℕ)
calls = accepts ∷ waits 7 0 ∷ supplies 10 ∷ supplies 11 ∷ accepts ∷ accepts ∷ []

same : ℕ → ℕ
same n = n

accept_gets_example : ((run same calls new).cells 1).value_ ≡ payload 11
unfolding same
accept_gets_example = accept_gets same calls 1 (omega arith)

resumed_example : (run same calls new).resumed ≡ 7 ∷ []
unfolding run new
resumed_example = refl

-- Two coroutines wait; the first to be resumed supplies a message and accepts again.
abbrev two_wait : Queues ℕ ℕ
unfolding new run
two_wait = run same (accepts ∷ waits 7 0 ∷ accepts ∷ waits 8 1 ∷ []) new

abbrev script : ℕ → List (Call ℕ)
script a = supplies 5 ∷ accepts ∷ []

disconnect_drains_example :
    ((disconnect (λ a. run same (script a)) 2 two_wait).pending_accepters ≡ [])
    × ((disconnect (λ a. run same (script a)) 2 two_wait).disconnected ≡ true)
unfolding new run
disconnect_drains_example = disconnect_drains same script 2 two_wait (omega arith)

abbrev closed : Queues ℕ ℕ
unfolding new
closed = record new { disconnected = true; pending_data = 4 ∷ [] }

drained_for_good_example : (run same calls closed).pending_accepters ≡ []
unfolding new
drained_for_good_example = drained_for_good same calls closed refl refl

disconnect_refuses_example : (disconnect {P = ℕ} {S = ℕ} (λ _ r. r) 2 two_wait).resumed ≡ 7 ∷ 8 ∷ []
unfolding new run
disconnect_refuses_example = (disconnect_refuses 2 two_wait (omega arith)).log
