-- ===== src/Offload.antt =====
-- Offloading contexts: which tasks the constructor of each context sets up with DOCA, and which task
-- each operation offloads (shoc/compress.cpp, shoc/sha.cpp, shoc/aes_gcm.cpp, shoc/erasure_coding.cpp,
-- shoc/dma.cpp, shoc/sync_event.cpp, shoc/rdma.cpp, shoc/eth_rxq.cpp, shoc/eth_txq.cpp,
-- shoc/comch/consumer.cpp, shoc/comch/producer.cpp).
pub mod Setup
pub mod Contexts
pub mod Ethernet
pub mod CommChannel
pub mod Operations
pub mod Callbacks
pub mod Configured
pub mod Objects
mod Tests
use shoc.Base.{ℕ, Bool, true, false, Option, none, some, List, [], ◌∷◌, if◌then◌else◌}

-- The task types of DOCA that the library uses.
pub data TaskType : Type 0 where
  task_compress_deflate task_decompress_deflate : TaskType
  task_decompress_lz4_block task_decompress_lz4_stream : TaskType
  task_hash task_partial_hash : TaskType
  task_encrypt task_decrypt : TaskType
  task_ec_create task_ec_update task_ec_recover : TaskType
  task_memcpy : TaskType
  task_event_get task_notify_add task_notify_set task_wait_eq task_wait_neq : TaskType
  task_rdma_receive task_rdma_send task_rdma_send_imm task_rdma_read : TaskType
  task_rdma_write task_rdma_write_imm task_atomic_cmp_swp task_atomic_fetch_add : TaskType
  task_remote_event_get task_remote_notify_set task_remote_notify_add : TaskType
  task_eth_recv task_eth_send task_eth_lso_send : TaskType
  task_post_recv task_producer_send task_comch_send : TaskType

-- What a task's user data points to: the receptable of a status, alone or with a buffer for
-- checksums or for immediate data, or the receptable of a consumer's result.
pub data Payload : Type 0 where
  plain_status status_with_checksums status_with_immediate recv_result : Payload

-- The completion callbacks: `plain_status_callback`, deferred or not,
-- `compress_context::task_completion_callback`, `rdma_context::receive_completion_callback` and
-- `consumer::post_recv_task_completion_callback`.
pub data Callback : Type 0 where
  plain_status_callback : Bool → Callback
  compress_completion receive_completion post_recv_completion : Callback

-- The type that a callback casts its user data to.
unfoldable pub casts_to : Callback → Payload
casts_to (plain_status_callback deferred) = plain_status
casts_to compress_completion = status_with_checksums
casts_to receive_completion = status_with_immediate
casts_to post_recv_completion = recv_result

-- What DOCA is told before a context starts.
pub data Property : Type 0 where
  rdma_permissions gid_index max_num_connections transport_type : Property
  connection_state_callbacks : Property
  rxq_metadata_num queue_id flow_tag rx_hash packet_headroom packet_tailroom timestamp : Property
  max_recv_buf_list_len pkt_buf : Property
  max_send_buf_list_len txq_metadata_num mss max_lso_header_size txq_type : Property
  l3_chksum_offload l4_chksum_offload wait_on_time_offload : Property
  publisher_remote_pci publisher_remote_net publisher_cpu : Property
  subscriber_remote_pci subscriber_cpu : Property
  managed_recv_event batch_managed_recv_event : Property
  msg_recv_event connection_event consumer_event max_msg_size recv_queue_size : Property

-- `doca_eth_rxq_type`
pub data RxqType : Type 0 where
  cyclic managed_mempool regular : RxqType

-- A call of a constructor: one of those that create the handle and connect it to the engine, or, on
-- the new handle, `doca_…_task_…_set_conf` with the callbacks for success and failure and the number of
-- tasks, or the setter of a property.
pub data SetupCall : Type 0 where
  create_handle set_user_data set_state_changed_cb connect_ctx : SetupCall
  set_conf : TaskType → Callback → Callback → ℕ → SetupCall
  set_property : Property → List ℕ → SetupCall
  set_rxq_type : RxqType → SetupCall

pub data Capability : Type 0 where
  compress_deflate_capability sha_capability erasure_coding_capability dma_capability : Capability
  comch_server_capability comch_client_capability : Capability

-- The body of a constructor: the capability that it demands of the device, and its calls in order.
pub record Constructor : Type 0 where
  pub demands : Option Capability
  pub calls : List SetupCall

abbrev pub flag : Bool → ℕ
flag b = if b then 1 else 0

abbrev pub same_callbacks : TaskType → Callback → ℕ → SetupCall
same_callbacks t c max_tasks = set_conf t c c max_tasks

abbrev pub plain_conf : ℕ → TaskType → SetupCall
plain_conf max_tasks t = same_callbacks t (plain_status_callback false) max_tasks
