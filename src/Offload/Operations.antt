-- ===== src/Offload/Operations.antt =====
-- The operations of the offloading contexts: the task that each allocates on its context's handle, by
-- `status_offload` or, for a consumer, in the same way by itself.
use shoc.Base.{ℕ, Bool, Option, List, [], ◌∷◌, if◌then◌else◌}
use shoc.Doca.{DocaError, is_success}
use shoc.Offload.{
  TaskType, task_compress_deflate, task_decompress_deflate, task_decompress_lz4_block,
  task_decompress_lz4_stream, task_hash, task_partial_hash, task_encrypt, task_decrypt,
  task_ec_create, task_ec_update, task_ec_recover, task_memcpy, task_event_get, task_notify_add,
  task_notify_set, task_wait_eq, task_wait_neq, task_rdma_receive, task_rdma_send,
  task_rdma_send_imm, task_rdma_read, task_rdma_write, task_rdma_write_imm, task_atomic_cmp_swp,
  task_atomic_fetch_add, task_remote_event_get, task_remote_notify_set, task_remote_notify_add,
  task_eth_recv, task_eth_send, task_eth_lso_send, task_post_recv, task_producer_send, Payload,
  plain_status, status_with_checksums, status_with_immediate, recv_result, flag,
}

-- An argument for DOCA: a number, the handle of an object, or a buffer's handle, which may be null.
pub data Arg : Type 0 where
  number handle : ℕ → Arg
  buffer : Option ℕ → Arg

-- The task, what its user data points to, and the arguments that it is allocated with.
pub record Task : Type 0 where
  pub type : TaskType
  pub user_data : Payload
  pub args : List Arg

abbrev plain : TaskType → List Arg → Task
plain t a = record { type = t; user_data = plain_status; args = a }

-- Source and destination buffers are handles.
pub data CompressOp : Type 0 where
  compress decompress decompress_lz4_block : Option ℕ → Option ℕ → CompressOp
  decompress_lz4_stream : Bool → Bool → Option ℕ → Option ℕ → CompressOp

abbrev with_checksums : TaskType → List Arg → Task
with_checksums t a = record { type = t; user_data = status_with_checksums; args = a }

unfoldable pub compress_task : CompressOp → Task
compress_task (compress src dest) =
    with_checksums task_compress_deflate (buffer src ∷ buffer dest ∷ [])
compress_task (decompress src dest) =
    with_checksums task_decompress_deflate (buffer src ∷ buffer dest ∷ [])
compress_task (decompress_lz4_block src dest) =
    with_checksums task_decompress_lz4_block (buffer src ∷ buffer dest ∷ [])
compress_task (decompress_lz4_stream has_block_checksum are_blocks_independent src dest) =
    with_checksums task_decompress_lz4_stream (
      number (flag has_block_checksum)
      ∷ number (flag are_blocks_independent)
      ∷ buffer src
      ∷ buffer dest
      ∷ [])

pub data ShaOp : Type 0 where
  hash : ℕ → Option ℕ → Option ℕ → ShaOp
  partial_hash : ℕ → Option ℕ → Option ℕ → Bool → ShaOp

unfoldable pub sha_task : ShaOp → Task
sha_task (hash algorithm src dst) =
    plain task_hash (number algorithm ∷ buffer src ∷ buffer dst ∷ [])
sha_task (partial_hash algorithm src dst final_segment) =
    plain task_partial_hash (number algorithm ∷ buffer src ∷ buffer dst ∷ [])

-- `allocate_partial_hash_task`: the task is marked as the last one only if it was allocated, and a
-- failure to mark it counts as a failure to allocate it.
unfoldable pub allocate_partial_hash_task : Bool → DocaError → DocaError → DocaError
allocate_partial_hash_task final_segment allocated marked =
    if final_segment then (if is_success allocated then marked else allocated) else allocated

-- Buffers, the key's handle, the initialisation vector's address and length, tag and AAD sizes.
pub data AesGcmOp : Type 0 where
  encrypt decrypt : Option ℕ → Option ℕ → ℕ → ℕ → ℕ → ℕ → ℕ → AesGcmOp

unfoldable pub aes_gcm_task : AesGcmOp → Task
aes_gcm_task (encrypt plaintext dest key iv iv_size tag_size aad_size) = plain task_encrypt (
    buffer plaintext
    ∷ buffer dest
    ∷ handle key
    ∷ handle iv
    ∷ number iv_size
    ∷ number tag_size
    ∷ number aad_size
    ∷ [])
aes_gcm_task (decrypt encrypted dest key iv iv_size tag_size aad_size) = plain task_decrypt (
    buffer encrypted
    ∷ buffer dest
    ∷ handle key
    ∷ handle iv
    ∷ number iv_size
    ∷ number tag_size
    ∷ number aad_size
    ∷ [])

-- The matrix, and the two buffers.
pub data EcOp : Type 0 where
  create recover update : ℕ → Option ℕ → Option ℕ → EcOp

unfoldable pub ec_task : EcOp → Task
ec_task (create coding_matrix original rdnc) =
    plain task_ec_create (handle coding_matrix ∷ buffer original ∷ buffer rdnc ∷ [])
ec_task (recover recover_matrix available recovered) =
    plain task_ec_recover (handle recover_matrix ∷ buffer available ∷ buffer recovered ∷ [])
ec_task (update update_matrix original updated) =
    plain task_ec_update (handle update_matrix ∷ buffer original ∷ buffer updated ∷ [])

unfoldable pub memcpy : Option ℕ → Option ℕ → Task
memcpy src dest = plain task_memcpy (buffer src ∷ buffer dest ∷ [])

-- Pointers to the result are handles; `wait` operations have a value and a mask.
pub data SyncEventOp : Type 0 where
  get notify_set : ℕ → SyncEventOp
  notify_add wait_eq wait_neq : ℕ → ℕ → SyncEventOp

unfoldable pub sync_event_task : SyncEventOp → Task
sync_event_task (get dest) = plain task_event_get (handle dest ∷ [])
sync_event_task (notify_add inc_val fetched) =
    plain task_notify_add (number inc_val ∷ handle fetched ∷ [])
sync_event_task (notify_set set_val) = plain task_notify_set (number set_val ∷ [])
sync_event_task (wait_eq wait_val mask) = plain task_wait_eq (number wait_val ∷ number mask ∷ [])
sync_event_task (wait_neq wait_val mask) = plain task_wait_neq (number wait_val ∷ number mask ∷ [])

unfoldable pub eth_receive : Option ℕ → Task
eth_receive dest = plain task_eth_recv (buffer dest ∷ [])

pub data TxqOp : Type 0 where
  send : Option ℕ → TxqOp
  lso_send : Option ℕ → ℕ → TxqOp

unfoldable pub eth_txq_task : TxqOp → Task
eth_txq_task (send pkt) = plain task_eth_send (buffer pkt ∷ [])
eth_txq_task (lso_send payload headers) =
    plain task_eth_lso_send (buffer payload ∷ handle headers ∷ [])

-- `consumer::post_recv`, where the user data are set on the allocated task.
unfoldable pub post_recv : Option ℕ → Task
post_recv dest = record { type = task_post_recv; user_data = recv_result; args = buffer dest ∷ [] }

-- `producer::send`, to a consumer that is not expired: the address and the size of the immediate data
-- and the consumer's id.
unfoldable pub producer_send : Option ℕ → ℕ → ℕ → ℕ → Task
producer_send buf immediate size consumer_id =
    plain task_producer_send (buffer buf ∷ handle immediate ∷ number size ∷ number consumer_id ∷ [])

pub data RdmaTransfer : Type 0 where
  rdma_send rdma_receive : Option ℕ → RdmaTransfer
  rdma_send_imm : Option ℕ → ℕ → RdmaTransfer
  rdma_read rdma_write : Option ℕ → Option ℕ → RdmaTransfer
  rdma_write_imm : Option ℕ → Option ℕ → ℕ → RdmaTransfer

-- `DOCA_HTOBE32` is an argument.
module _ (htobe32 : ℕ → ℕ) where
  -- The operations on the connection `conn` that transfer buffers; `receive` is on the context.
  unfoldable pub rdma_transfer : ℕ → RdmaTransfer → Task
  rdma_transfer conn (rdma_send src) = plain task_rdma_send (handle conn ∷ buffer src ∷ [])
  rdma_transfer conn (rdma_send_imm src immediate) =
      plain task_rdma_send_imm (handle conn ∷ buffer src ∷ number (htobe32 immediate) ∷ [])
  rdma_transfer conn (rdma_receive dest) = record {
    type = task_rdma_receive;
    user_data = status_with_immediate;
    args = buffer dest ∷ [];
  }
  rdma_transfer conn (rdma_read src dest) =
      plain task_rdma_read (handle conn ∷ buffer src ∷ buffer dest ∷ [])
  rdma_transfer conn (rdma_write src dest) =
      plain task_rdma_write (handle conn ∷ buffer src ∷ buffer dest ∷ [])
  rdma_transfer conn (rdma_write_imm src dest immediate) =
      plain task_rdma_write_imm
        (handle conn ∷ buffer src ∷ buffer dest ∷ number (htobe32 immediate) ∷ [])

pub data RdmaRemote : Type 0 where
  atomic_cmp_swp : Option ℕ → Option ℕ → ℕ → ℕ → RdmaRemote
  atomic_fetch_add : Option ℕ → Option ℕ → ℕ → RdmaRemote
  remote_net_sync_event_get remote_net_sync_event_notify_set : ℕ → Option ℕ → RdmaRemote
  remote_net_sync_event_notify_add : ℕ → Option ℕ → ℕ → RdmaRemote

-- The atomic operations on the connection `conn` and those on remote events.
unfoldable pub rdma_remote : ℕ → RdmaRemote → Task
rdma_remote conn (atomic_cmp_swp dst result cmp swap) =
    plain task_atomic_cmp_swp
      (handle conn ∷ buffer dst ∷ buffer result ∷ number cmp ∷ number swap ∷ [])
rdma_remote conn (atomic_fetch_add dst result add) =
    plain task_atomic_fetch_add (handle conn ∷ buffer dst ∷ buffer result ∷ number add ∷ [])
rdma_remote conn (remote_net_sync_event_get event dst) =
    plain task_remote_event_get (handle conn ∷ handle event ∷ buffer dst ∷ [])
rdma_remote conn (remote_net_sync_event_notify_set event src) =
    plain task_remote_notify_set (handle conn ∷ handle event ∷ buffer src ∷ [])
rdma_remote conn (remote_net_sync_event_notify_add event result add) =
    plain task_remote_notify_add (handle conn ∷ handle event ∷ buffer result ∷ number add ∷ [])
