-- ===== src/Rdma/Tests.antt =====
-- Instances of the theorems on RDMA connections, and runs.
use shoc.Base.{ℕ, ◌≡◌, refl, true, false, some, List, [], ◌∷◌, contains, lookup}
use shoc.Doca.{success, in_use}
use shoc.Error.{doca_exception}
use shoc.Coro.{exception, payload, create_empty, emplace_value}
use shoc.Rdma.{
  server, PortAnswers, get_port_from_connection, get_port_from_addr, new_rdma, listen,
  answer_request, request_at, request_from, connection_request, take_connection_receptable,
  complete, connection_established,
}
use shoc.Rdma.History.{Event, listens, requested, established, waits, step, run, run-new_rdma-Inv}
use shoc.Rdma.History.Invariant.{Inv}
use shoc.Rdma.Refused.{refused_accept_strands}

abbrev on_port : ℕ → PortAnswers
on_port p = record { get_addr = success; get_params = success; port = p }

-- Two ports are listened on, and the second is connected to.
abbrev accept_one : List Event
accept_one =
    listens success 80
    ∷ listens success 81
    ∷ waits 5 1
    ∷ requested (on_port 81) success 900
    ∷ established (on_port 81) 900
    ∷ []

run-new_rdma-Inv_example : Inv (run accept_one new_rdma)
run-new_rdma-Inv_example = run-new_rdma-Inv accept_one

second_gets_connection :
    ((run accept_one new_rdma).cells 1 ≡ record { value_ = payload 900; waiter_ = some 5 })
    × ((run accept_one new_rdma).resumed ≡ 1 ∷ [])
    × ((run accept_one new_rdma).listeners ≡ (80, 0) ∷ [])
unfolding run step new_rdma listen create_empty connection_request request_from request_at
    answer_request get_port_from_connection get_port_from_addr connection_established
    take_connection_receptable complete emplace_value
second_gets_connection = (refl, refl, refl)

abbrev listening : List Event
listening = listens success 80 ∷ []

listens_on_80 : (run listening new_rdma).cm_role ≡ server
unfolding run step new_rdma listen
listens_on_80 = refl

first_waits : lookup 80 (run listening new_rdma).listeners ≡ some 0
unfolding run step new_rdma listen
first_waits = refl

port_80 : get_port_from_connection (on_port 80) ≡ some 80
unfolding get_port_from_connection get_port_from_addr
port_80 = refl

refused_accept_strands_example :
    (((run (requested (on_port 80) in_use 7 ∷ accept_one) (run listening new_rdma)).cells 0).value_
      ≡ exception (some (doca_exception in_use)))
    × (contains 0
          (run (requested (on_port 80) in_use 7 ∷ accept_one) (run listening new_rdma)).completed
        ≡ true)
    × (contains 0
          (run (requested (on_port 80) in_use 7 ∷ accept_one) (run listening new_rdma)).resumed
        ≡ false)
refused_accept_strands_example =
    refused_accept_strands (on_port 80) in_use 7 80 0 (run listening new_rdma) accept_one
      (run-new_rdma-Inv listening) listens_on_80 port_80 first_waits refl
