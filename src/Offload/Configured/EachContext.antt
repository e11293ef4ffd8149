-- ===== src/Offload/Configured/EachContext.antt =====
-- What the constructors of the contexts with more than one kind of task configure (shoc/compress.cpp,
-- shoc/sha.cpp, shoc/aes_gcm.cpp, shoc/erasure_coding.cpp, shoc/sync_event.cpp, shoc/rdma.cpp and
-- shoc/eth_txq.cpp), one context at a time.
use shoc.Base.{ℕ, ◌≡◌, refl, ◌⊎◌, inl, inr, true, false, List, [], ◌∷◌, ◌++◌, ap, arith}
use shoc.Doca.{success}
use shoc.Offload.{
  task_eth_send, task_eth_lso_send, Callback, plain_status_callback, compress_completion,
  receive_completion, casts_to, SetupCall, set_conf, plain_conf,
}
use shoc.Offload.Setup.{successful}
use shoc.Offload.Contexts.{
  compress_context, sha_context, aes_gcm_context, ec_context, init_callbacks, RdmaConfig,
  rdma_context, rdma_properties, rdma_confs,
}
use shoc.Offload.Ethernet.{txq_properties, txq_confs, TxqConfig, eth_txq}
use shoc.Offload.Operations.{
  Task, CompressOp, compress_task, compress, decompress, decompress_lz4_block,
  decompress_lz4_stream, ShaOp, sha_task, hash, partial_hash, AesGcmOp, aes_gcm_task, encrypt,
  decrypt, EcOp, ec_task, create, recover, update, SyncEventOp, sync_event_task, get, notify_set,
  notify_add, wait_eq, wait_neq, TxqOp, eth_txq_task, send, lso_send, RdmaTransfer, rdma_transfer,
  rdma_send, rdma_receive, rdma_send_imm, rdma_read, rdma_write, rdma_write_imm, RdmaRemote,
  rdma_remote, atomic_cmp_swp, atomic_fetch_add, remote_net_sync_event_get,
  remote_net_sync_event_notify_set, remote_net_sync_event_notify_add,
}

abbrev pub Occurs : {A : Type 0} → A → List A → Type 0
Occurs x [] = ⊥
Occurs x (y ∷ l) = (y ≡ x) ⊎ Occurs x l

pub Occurs-append_right : {A : Type 0} (x : A) (l m : List A) → Occurs x m → Occurs x (l ++ m)
Occurs-append_right x [] m h = h
Occurs-append_right x (y ∷ l) m h = inr (Occurs-append_right x l m h)

pub Occurs-append_left : {A : Type 0} (x : A) (l m : List A) → Occurs x l → Occurs x (l ++ m)
Occurs-append_left x [] m h = absurd h
Occurs-append_left x (y ∷ l) m (inl e) = inl e
Occurs-append_left x (y ∷ l) m (inr h) = inr (Occurs-append_left x l m h)

pub Occurs-successful :
    {A : Type 0} (x : A) (l : List A) → Occurs x l → Occurs (x, success) (successful l)
Occurs-successful x [] h = h
Occurs-successful x (y ∷ l) (inl e) = inl (ap (λ z. (z, success)) e)
Occurs-successful x (y ∷ l) (inr h) = inr (Occurs-successful x l h)

-- The calls set up the task with a callback for its receptable.
abbrev pub SetsUp : List SetupCall → ℕ → Task → Type 0
SetsUp calls max_tasks t =
    (c : Callback) × Occurs (set_conf t.type c c max_tasks) calls × (casts_to c ≡ t.user_data)

pub compress-SetsUp :
    (n : ℕ) (op : CompressOp) → SetsUp (compress_context n).calls n (compress_task op)
unfolding compress_context compress_task casts_to
compress-SetsUp n (compress src dest) = (compress_completion, ground arith, refl)
compress-SetsUp n (decompress src dest) = (compress_completion, ground arith, refl)
compress-SetsUp n (decompress_lz4_block src dest) = (compress_completion, ground arith, refl)
compress-SetsUp n (decompress_lz4_stream b i src dest) = (compress_completion, ground arith, refl)

abbrev pub plain : Callback
plain = plain_status_callback false

pub sha-SetsUp : (n : ℕ) (op : ShaOp) → SetsUp (sha_context n).calls n (sha_task op)
unfolding sha_context sha_task casts_to
sha-SetsUp n (hash a src dest) = (plain, ground arith, refl)
sha-SetsUp n (partial_hash a src dest last) = (plain, ground arith, refl)

pub aes_gcm-SetsUp : (n : ℕ) (op : AesGcmOp) → SetsUp (aes_gcm_context n).calls n (aes_gcm_task op)
unfolding aes_gcm_context aes_gcm_task casts_to
aes_gcm-SetsUp n (encrypt a b c d e f g) = (plain, ground arith, refl)
aes_gcm-SetsUp n (decrypt a b c d e f g) = (plain, ground arith, refl)

pub ec-SetsUp : (n : ℕ) (op : EcOp) → SetsUp (ec_context n).calls n (ec_task op)
unfolding ec_context ec_task casts_to
ec-SetsUp n (create m a b) = (plain, ground arith, refl)
ec-SetsUp n (recover m a b) = (plain, ground arith, refl)
ec-SetsUp n (update m a b) = (plain, ground arith, refl)

pub init_callbacks-SetsUp :
    (n : ℕ) (op : SyncEventOp) → SetsUp (init_callbacks n) n (sync_event_task op)
unfolding init_callbacks sync_event_task casts_to
init_callbacks-SetsUp n (get a) = (plain, ground arith, refl)
init_callbacks-SetsUp n (notify_add a b) = (plain, ground arith, refl)
init_callbacks-SetsUp n (notify_set a) = (plain, ground arith, refl)
init_callbacks-SetsUp n (wait_eq a b) = (plain, ground arith, refl)
init_callbacks-SetsUp n (wait_neq a b) = (plain, ground arith, refl)

-- The tasks of an RDMA context are configured after its properties.
after_properties :
    (cfg : RdmaConfig) (c : SetupCall)
    → Occurs c (rdma_confs cfg.max_tasks)
    → Occurs c (rdma_context cfg).calls
unfolding rdma_context
after_properties cfg c h = Occurs-append_right c (rdma_properties cfg) (rdma_confs cfg.max_tasks) h

pub transfer-SetsUp :
    (cfg : RdmaConfig) (f : ℕ → ℕ) (conn : ℕ) (op : RdmaTransfer)
    → SetsUp (rdma_context cfg).calls cfg.max_tasks (rdma_transfer f conn op)
unfolding rdma_transfer casts_to
transfer-SetsUp cfg f conn (rdma_receive a) =
    (receive_completion, after_properties cfg _ (ground arith), refl)
transfer-SetsUp cfg f conn (rdma_send a) = (plain, after_properties cfg _ (ground arith), refl)
transfer-SetsUp cfg f conn (rdma_send_imm a i) =
    (plain, after_properties cfg _ (ground arith), refl)
transfer-SetsUp cfg f conn (rdma_read a b) = (plain, after_properties cfg _ (ground arith), refl)
transfer-SetsUp cfg f conn (rdma_write a b) = (plain, after_properties cfg _ (ground arith), refl)
transfer-SetsUp cfg f conn (rdma_write_imm a b i) =
    (plain, after_properties cfg _ (ground arith), refl)

pub remote-SetsUp :
    (cfg : RdmaConfig) (conn : ℕ) (op : RdmaRemote)
    → SetsUp (rdma_context cfg).calls cfg.max_tasks (rdma_remote conn op)
unfolding rdma_remote casts_to
remote-SetsUp cfg conn (atomic_cmp_swp a b x y) =
    (plain, after_properties cfg _ (ground arith), refl)
remote-SetsUp cfg conn (atomic_fetch_add a b x) =
    (plain, after_properties cfg _ (ground arith), refl)
remote-SetsUp cfg conn (remote_net_sync_event_get e a) =
    (plain, after_properties cfg _ (ground arith), refl)
remote-SetsUp cfg conn (remote_net_sync_event_notify_set e a) =
    (plain, after_properties cfg _ (ground arith), refl)
remote-SetsUp cfg conn (remote_net_sync_event_notify_add e a x) =
    (plain, after_properties cfg _ (ground arith), refl)

pub txq-SetsUp :
    (n : ℕ) (cfg : TxqConfig) (op : TxqOp) → SetsUp (eth_txq n cfg).calls n (eth_txq_task op)
unfolding eth_txq eth_txq_task casts_to
txq-SetsUp n cfg (send a) =
    let c = plain_status_callback true in
    (
      c,
      Occurs-append_right (set_conf task_eth_send c c n) (txq_properties cfg) (txq_confs n)
          (inl refl),
      refl,
    )
txq-SetsUp n cfg (lso_send a h) = (
  plain,
  Occurs-append_right (plain_conf n task_eth_lso_send) (txq_properties cfg) (txq_confs n)
      (inr (inl refl)),
  refl,
)
