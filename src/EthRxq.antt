-- ===== src/EthRxq.antt =====
-- The receive queues that DOCA fills by itself, eth_rxq_managed and eth_rxq_batch_managed
-- (shoc/eth_rxq.hpp, shoc/eth_rxq.cpp), and the forwarding target of a receive queue. A buffer is the
-- handle of its packet.
pub mod Batches
mod Tests
use shoc.Base.{ℕ, zero, suc, List, [], ◌∷◌, if◌then◌else◌, take}
use shoc.Doca.{DocaError, is_success}
use shoc.AccepterQueues.{Queues, new, accept, supply}

abbrev pub same {ℓ} : {A : Type ℓ} → A → A
same p = p

-- `eth_rxq_managed::receive`
unfoldable pub managed_receive : Queues ℕ ℕ → Queues ℕ ℕ
unfolding accept
managed_receive q = accept same q

-- `eth_rxq_managed::event_managed_recv_callback`
unfoldable pub event_managed_recv_callback : ℕ → Queues ℕ ℕ → Queues ℕ ℕ
unfolding supply
event_managed_recv_callback pkt q = supply same pkt q

-- `eth_rxq_batch_managed`, and the errors that it has logged
pub record BatchManaged : Type 0 where
  pub managed_batch_queues : Queues (List ℕ) (List ℕ)
  pub logged : ℕ

unfoldable pub new_batch_managed : BatchManaged
unfolding new
new_batch_managed = record { managed_batch_queues = new; logged = 0 }

-- `eth_rxq_batch_managed::batch_receive`
unfoldable pub batch_receive : BatchManaged → BatchManaged
unfolding accept
batch_receive ctx = record ctx { managed_batch_queues = accept same ctx.managed_batch_queues }

-- `eth_rxq_batch_managed::event_batch_managed_recv_callback`
unfoldable pub event_batch_managed_recv_callback :
    ℕ → DocaError → List ℕ → BatchManaged → BatchManaged
unfolding supply
event_batch_managed_recv_callback events_number status pkt_array ctx =
    if is_success status
    then record ctx {
      managed_batch_queues = supply same (take events_number pkt_array) ctx.managed_batch_queues;
    }
    else record ctx { logged = suc ctx.logged }

-- `doca_flow_fwd` as `eth_rxq_base::flow_target` fills it in.
pub record RssTarget : Type 0 where
  pub outer_flags : ℕ
  pub inner_flags : ℕ
  pub queues_array : List ℕ
  pub nr_queues : ℕ
  pub rss_hash_func : ℕ

unfoldable pub flow_target : ℕ → ℕ → ℕ → ℕ → RssTarget
flow_target flow_queue_id outer_flags inner_flags rss_hash_func = record {
  outer_flags = outer_flags;
  inner_flags = inner_flags;
  queues_array = flow_queue_id ∷ [];
  nr_queues = 1;
  rss_hash_func = rss_hash_func;
}
