-- ===== src/EthRxq/Tests.antt =====
-- Instances of the theorems on the managed receive queues, and runs of their callbacks.
use shoc.Base.{◌≡◌, refl, some, List, [], ◌∷◌, get_elem?, arith}
use shoc.Doca.{success, in_use}
use shoc.Coro.{payload, create_empty, emplace_value}
use shoc.AccepterQueues.{new, accept, supply}
use shoc.AccepterQueues.Fifo.{received}
use shoc.EthRxq.{same, new_batch_managed, managed_receive, event_managed_recv_callback, flow_target}
use shoc.EthRxq.Batches.{
  Event, receives, reported, suspends, run, batches, errors, batch_receive_gets,
}

-- The second report is an error, and the array of the third is longer than its number of events.
abbrev three_reports : List Event
three_reports =
    receives
    ∷ suspends 9 0
    ∷ reported 2 success (4 ∷ 5 ∷ [])
    ∷ reported 1 in_use (6 ∷ [])
    ∷ reported 1 success (7 ∷ 8 ∷ [])
    ∷ receives
    ∷ []

batch_receive_gets_example :
    ((((run three_reports new_batch_managed).managed_batch_queues.cells 1).value_
        ≡ received same (get_elem? (batches three_reports) 1))
      × ((run three_reports new_batch_managed).logged ≡ errors three_reports))
batch_receive_gets_example = batch_receive_gets three_reports 1 (omega arith)

second_batch : get_elem? (batches three_reports) 1 ≡ some (7 ∷ [])
second_batch = refl

waiting_is_served :
    ((event_managed_recv_callback 3 (managed_receive new)).cells 0).value_ ≡ payload 3
unfolding event_managed_recv_callback managed_receive new accept supply create_empty emplace_value
waiting_is_served = refl

one_queue : (flow_target 5 1 2 3).queues_array ≡ 5 ∷ []
unfolding flow_target
one_queue = refl
