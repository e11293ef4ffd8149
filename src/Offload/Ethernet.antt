-- ===== src/Offload/Ethernet.antt =====
-- The constructors of the Ethernet queues (shoc/eth_rxq.cpp, shoc/eth_txq.cpp), behind the call that
-- makes the handle.
use shoc.Base.{ℕ, Bool, true, ◌==◌, Option, none, some, List, [], ◌∷◌, ◌++◌, if◌then◌else◌}
use shoc.Offload.{
  task_eth_recv, task_eth_send, task_eth_lso_send, plain_status_callback, SetupCall, RxqType,
  managed_mempool, set_rxq_type, set_property, Constructor, flag, same_callbacks, plain_conf,
  rxq_metadata_num, queue_id, flow_tag, rx_hash, packet_headroom, packet_tailroom, timestamp,
  max_recv_buf_list_len, pkt_buf, max_send_buf_list_len, txq_metadata_num, mss, max_lso_header_size,
  txq_type, l3_chksum_offload, l4_chksum_offload, wait_on_time_offload, managed_recv_event,
  batch_managed_recv_event,
}
use shoc.Offload.Contexts.{optional}

pub record RxqConfig : Type 0 where
  pub metadata_num : Option ℕ  -- uint8
  pub enable_flow_tag : Bool
  pub enable_rx_hash : Bool
  pub headroom : ℕ  -- uint16
  pub tailroom : ℕ  -- uint16
  pub enable_timestamp : Bool
  pub recv_buf_list_len : Option ℕ  -- uint32

-- `eth_rxq_packet_buffer`
pub record PacketBuffer : Type 0 where
  pub mmap : ℕ
  pub offset : ℕ
  pub length : ℕ

abbrev packet_buffer_calls : Option PacketBuffer → List SetupCall
packet_buffer_calls none = []
packet_buffer_calls (some b) = set_property pkt_buf (b.mmap ∷ b.offset ∷ b.length ∷ []) ∷ []

unfoldable pub eth_rxq_base : ℕ → RxqConfig → RxqType → Option PacketBuffer → List SetupCall
eth_rxq_base id cfg type buf =
    optional rxq_metadata_num cfg.metadata_num
    ++ (set_property queue_id (id ∷ [])
        ∷ set_property flow_tag (flag cfg.enable_flow_tag ∷ [])
        ∷ set_property rx_hash (flag cfg.enable_rx_hash ∷ [])
        ∷ set_property packet_headroom (cfg.headroom ∷ [])
        ∷ set_property packet_tailroom (cfg.tailroom ∷ [])
        ∷ set_property timestamp (flag cfg.enable_timestamp ∷ [])
        ∷ (optional max_recv_buf_list_len cfg.recv_buf_list_len
            ++ (set_rxq_type type ∷ packet_buffer_calls buf)))

unfoldable pub eth_rxq : ℕ → ℕ → RxqConfig → RxqType → Option PacketBuffer → Constructor
unfolding eth_rxq_base
eth_rxq id max_tasks cfg type buf = record {
  demands = none;
  calls = eth_rxq_base id cfg type buf ++ plain_conf max_tasks task_eth_recv ∷ [];
}

unfoldable pub eth_rxq_managed : ℕ → RxqConfig → PacketBuffer → Constructor
unfolding eth_rxq_base
eth_rxq_managed id cfg buf = record {
  demands = none;
  calls = eth_rxq_base id cfg managed_mempool (some buf) ++ set_property managed_recv_event [] ∷ [];
}

unfoldable pub eth_rxq_batch_managed : ℕ → RxqConfig → PacketBuffer → ℕ → ℕ → Constructor
unfolding eth_rxq_base
eth_rxq_batch_managed id cfg buf events_max events_min = record {
  demands = none;
  calls =
      eth_rxq_base id cfg managed_mempool (some buf)
      ++ set_property batch_managed_recv_event (events_max ∷ events_min ∷ []) ∷ [];
}

pub record TxqConfig : Type 0 where
  pub send_buf_list_len : ℕ  -- uint32
  pub metadata_num : ℕ  -- uint8
  pub segment_size : ℕ  -- uint16, `mss`
  pub lso_header_size : ℕ  -- uint16
  pub type : ℕ
  pub l3_offload : Bool
  pub l4_offload : Bool
  pub wait_on_time : Bool

abbrev pub txq_properties : TxqConfig → List SetupCall
txq_properties cfg =
    set_property max_send_buf_list_len (cfg.send_buf_list_len ∷ [])
    ∷ ((if cfg.metadata_num == 0
          then []
          else set_property txq_metadata_num (cfg.metadata_num ∷ []) ∷ [])
        ++ (set_property mss (cfg.segment_size ∷ [])
            ∷ set_property max_lso_header_size (cfg.lso_header_size ∷ [])
            ∷ set_property txq_type (cfg.type ∷ [])
            ∷ set_property l3_chksum_offload (flag cfg.l3_offload ∷ [])
            ∷ set_property l4_chksum_offload (flag cfg.l4_offload ∷ [])
            ∷ (if cfg.wait_on_time then set_property wait_on_time_offload [] ∷ [] else [])))

abbrev pub txq_confs : ℕ → List SetupCall
txq_confs max_tasks =
    same_callbacks task_eth_send (plain_status_callback true) max_tasks
    ∷ plain_conf max_tasks task_eth_lso_send
    ∷ []

unfoldable pub eth_txq : ℕ → TxqConfig → Constructor
eth_txq max_tasks cfg = record { demands = none; calls = txq_properties cfg ++ txq_confs max_tasks }
