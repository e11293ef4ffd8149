-- ===== src/Offload/Configured.antt =====
-- That a context has set up every task which its operations offload, with a completion callback for
-- the receptable that they attach.
pub mod EachContext
use shoc.Base.{
  ℕ, ◌≡◌, refl, ◌⊎◌, inl, inr, Bool, true, false, Option, List, [], ◌∷◌, ◌++◌, ap, arith,
}
use shoc.Doca.{DocaError, success}
use shoc.Error.{ok}
use shoc.Offload.{
  task_eth_recv, task_eth_send, task_eth_lso_send, Callback, plain_status_callback,
  compress_completion, receive_completion, post_recv_completion, casts_to, SetupCall, set_conf,
  Capability, Constructor, RxqType, plain_conf,
}
use shoc.Offload.Setup.{successful, base_calls, construct, construct-returns}
use shoc.Offload.Contexts.{
  compress_context, sha_context, aes_gcm_context, ec_context, dma_context, consumer, producer,
  Publisher, Subscriber, init_callbacks, add_publishers, add_subscribers, sync_event,
  sync_event_from_export, RdmaConfig, rdma_context, rdma_properties, rdma_confs,
}
use shoc.Offload.Ethernet.{
  txq_properties, txq_confs, RxqConfig, PacketBuffer, eth_rxq, eth_rxq_base, TxqConfig, eth_txq,
}
use shoc.Offload.CommChannel.{Limits, comch_server, comch_client, send_message}
use shoc.Offload.Operations.{
  Task, CompressOp, compress_task, compress, decompress, decompress_lz4_block,
  decompress_lz4_stream, ShaOp, sha_task, hash, partial_hash, AesGcmOp, aes_gcm_task, encrypt,
  decrypt, EcOp, ec_task, create, recover, update, memcpy, SyncEventOp, sync_event_task, get,
  notify_set, notify_add, wait_eq, wait_neq, eth_receive, TxqOp, eth_txq_task, send, lso_send,
  post_recv, producer_send, RdmaTransfer, rdma_transfer, rdma_send, rdma_receive, rdma_send_imm,
  rdma_read, rdma_write, rdma_write_imm, RdmaRemote, rdma_remote, atomic_cmp_swp, atomic_fetch_add,
  remote_net_sync_event_get, remote_net_sync_event_notify_set, remote_net_sync_event_notify_add,
}
use shoc.Offload.Configured.EachContext.{
  Occurs, Occurs-append_right, Occurs-append_left, Occurs-successful, plain, compress-SetsUp,
  sha-SetsUp, aes_gcm-SetsUp, ec-SetsUp, init_callbacks-SetsUp, transfer-SetsUp, remote-SetsUp,
  txq-SetsUp, SetsUp,
}

-- The contexts that offload tasks, with the arguments of their constructors.
pub data Kind : Type 0 where
  compressor hasher cipher coder copier : ℕ → Kind
  receiving sending : ℕ → Kind
  event : List Publisher → List Subscriber → ℕ → Kind
  imported_event : ℕ → Kind
  rdma : RdmaConfig → Kind
  rxq : ℕ → ℕ → RxqConfig → RxqType → Option PacketBuffer → Kind
  txq : ℕ → TxqConfig → Kind
  listening connecting : Limits → Kind

unfoldable pub constructor_of : Kind → Constructor
unfolding compress_context sha_context aes_gcm_context ec_context dma_context consumer producer
    sync_event sync_event_from_export rdma_context eth_rxq eth_txq comch_server comch_client
constructor_of (compressor n) = compress_context n
constructor_of (hasher n) = sha_context n
constructor_of (cipher n) = aes_gcm_context n
constructor_of (coder n) = ec_context n
constructor_of (copier n) = dma_context n
constructor_of (receiving n) = consumer n
constructor_of (sending n) = producer n
constructor_of (event ps ss n) = sync_event ps ss n
constructor_of (imported_event n) = sync_event_from_export n
constructor_of (rdma cfg) = rdma_context cfg
constructor_of (rxq id n cfg type buf) = eth_rxq id n cfg type buf
constructor_of (txq n cfg) = eth_txq n cfg
constructor_of (listening limits) = comch_server limits
constructor_of (connecting limits) = comch_client limits

-- The number of tasks that the constructor is given.
abbrev pub max_tasks_of : Kind → ℕ
max_tasks_of (compressor n) = n
max_tasks_of (hasher n) = n
max_tasks_of (cipher n) = n
max_tasks_of (coder n) = n
max_tasks_of (copier n) = n
max_tasks_of (receiving n) = n
max_tasks_of (sending n) = n
max_tasks_of (event ps ss n) = n
max_tasks_of (imported_event n) = n
max_tasks_of (rdma cfg) = cfg.max_tasks
max_tasks_of (rxq id n cfg type buf) = n
max_tasks_of (txq n cfg) = n
max_tasks_of (listening limits) = limits.num_send_tasks
max_tasks_of (connecting limits) = limits.num_send_tasks

-- The operations of each, with their arguments.
abbrev pub Op : Kind → Type 0
Op (compressor n) = CompressOp
Op (hasher n) = ShaOp
Op (cipher n) = AesGcmOp
Op (coder n) = EcOp
Op (copier n) = Option ℕ × Option ℕ
Op (receiving n) = Option ℕ
Op (sending n) = Option ℕ × ℕ × ℕ × ℕ
Op (event ps ss n) = SyncEventOp
Op (imported_event n) = SyncEventOp
Op (rdma cfg) = (ℕ → ℕ) × ℕ × (RdmaTransfer ⊎ RdmaRemote)
Op (rxq id n cfg type buf) = Option ℕ
Op (txq n cfg) = TxqOp
Op (listening limits) = ℕ × ℕ × ℕ
Op (connecting limits) = ℕ × ℕ × ℕ

rdma_task : (ℕ → ℕ) → ℕ → RdmaTransfer ⊎ RdmaRemote → Task
unfolding rdma_transfer rdma_remote
rdma_task htobe32 conn (inl op) = rdma_transfer htobe32 conn op
rdma_task htobe32 conn (inr op) = rdma_remote conn op

unfoldable pub task_of : (k : Kind) → Op k → Task
unfolding compress_task sha_task aes_gcm_task ec_task memcpy post_recv producer_send sync_event_task
    rdma_task eth_receive eth_txq_task send_message
task_of (compressor n) op = compress_task op
task_of (hasher n) op = sha_task op
task_of (cipher n) op = aes_gcm_task op
task_of (coder n) op = ec_task op
task_of (copier n) op = memcpy op.0 op.1
task_of (receiving n) op = post_recv op
task_of (sending n) op = producer_send op.0 op.1 op.2 op.3
task_of (event ps ss n) op = sync_event_task op
task_of (imported_event n) op = sync_event_task op
task_of (rdma cfg) op = rdma_task op.0 op.1 op.2
task_of (rxq id n cfg type buf) op = eth_receive op
task_of (txq n cfg) op = eth_txq_task op
task_of (listening limits) op = send_message op.0 op.1 op.2
task_of (connecting limits) op = send_message op.0 op.1 op.2

kind-SetsUp :
    (k : Kind) (op : Op k) → SetsUp (constructor_of k).calls (max_tasks_of k) (task_of k op)
unfolding constructor_of task_of casts_to dma_context consumer producer memcpy post_recv
    producer_send sync_event sync_event_from_export rdma_task eth_rxq eth_receive comch_server
    comch_client send_message
kind-SetsUp (compressor n) op = compress-SetsUp n op
kind-SetsUp (hasher n) op = sha-SetsUp n op
kind-SetsUp (cipher n) op = aes_gcm-SetsUp n op
kind-SetsUp (coder n) op = ec-SetsUp n op
kind-SetsUp (copier n) op = (plain, ground arith, refl)
kind-SetsUp (receiving n) op = (post_recv_completion, ground arith, refl)
kind-SetsUp (sending n) op = (plain, ground arith, refl)
kind-SetsUp (event ps ss n) op =
    let (c, h, e) = init_callbacks-SetsUp n op in
    let t = sync_event_task op in
    (
      c,
      Occurs-append_left (set_conf t.type c c n) (init_callbacks n)
          (add_publishers ps ++ add_subscribers ss) h,
      e,
    )
kind-SetsUp (imported_event n) op = init_callbacks-SetsUp n op
kind-SetsUp (rdma cfg) (f, conn, inl op) = transfer-SetsUp cfg f conn op
kind-SetsUp (rdma cfg) (f, conn, inr op) = remote-SetsUp cfg conn op
kind-SetsUp (rxq id n cfg type buf) op = (
  plain,
  Occurs-append_right _ (eth_rxq_base id cfg type buf) (plain_conf n task_eth_recv ∷ [])
      (ground arith),
  refl,
)
kind-SetsUp (txq n cfg) op = txq-SetsUp n cfg op
kind-SetsUp (listening limits) op = (plain, ground arith, refl)
kind-SetsUp (connecting limits) op = (plain, ground arith, refl)

-- A context whose constructor returns has successfully set up, for every operation that it has, the
-- task which the operation offloads: for as many tasks as the constructor was told, and with a
-- completion callback for success and for failure that casts the task's user data to the very type
-- of receptable that the operation attaches.
pub construct-sets_up :
    (has_capability : Capability → Bool) (answer : ℕ → DocaError) (k : Kind) (op : Op k)
    → (construct has_capability answer (constructor_of k)).1 ≡ ok tt
    → let t = task_of k op in
      (c : Callback) × Occurs
        (set_conf t.type c c (max_tasks_of k), success)
        (construct has_capability answer (constructor_of k)).0
      × (casts_to c ≡ t.user_data)
construct-sets_up has_capability answer k op r =
    let (c, h, e) = kind-SetsUp k op in
    (
      c,
      rw (construct-returns has_capability answer (constructor_of k) r) (
          Occurs-append_right _ (successful base_calls) (successful (constructor_of k).calls) (
            Occurs-successful (set_conf (task_of k op).type c c (max_tasks_of k))
              (constructor_of k).calls h)),
      e,
    )
