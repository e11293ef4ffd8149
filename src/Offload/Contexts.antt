-- ===== src/Offload/Contexts.antt =====
-- The constructors of the offloading contexts, behind the call that makes the handle: the calls of
-- DOCA in the order of the source.
use shoc.Base.{ℕ, Option, none, some, List, [], ◌∷◌, ◌++◌}
use shoc.Offload.{
  task_compress_deflate, task_decompress_deflate, task_decompress_lz4_block,
  task_decompress_lz4_stream, task_hash, task_partial_hash, task_encrypt, task_decrypt,
  task_ec_create, task_ec_update, task_ec_recover, task_memcpy, task_event_get, task_notify_add,
  task_notify_set, task_wait_eq, task_wait_neq, task_rdma_receive, task_rdma_send,
  task_rdma_send_imm, task_rdma_read, task_rdma_write, task_rdma_write_imm, task_atomic_cmp_swp,
  task_atomic_fetch_add, task_remote_event_get, task_remote_notify_set, task_remote_notify_add,
  task_post_recv, task_producer_send, compress_completion, receive_completion, post_recv_completion,
  Property, SetupCall, set_property, compress_deflate_capability, sha_capability,
  erasure_coding_capability, dma_capability, Constructor, same_callbacks, plain_conf,
  rdma_permissions, gid_index, max_num_connections, transport_type, connection_state_callbacks,
  publisher_remote_pci, publisher_remote_net, publisher_cpu, subscriber_remote_pci, subscriber_cpu,
}

abbrev pub optional : Property → Option ℕ → List SetupCall
optional p none = []
optional p (some n) = set_property p (n ∷ []) ∷ []

unfoldable pub compress_context : ℕ → Constructor
compress_context max_tasks = record {
  demands = some compress_deflate_capability;
  calls =
      same_callbacks task_compress_deflate compress_completion max_tasks
      ∷ same_callbacks task_decompress_deflate compress_completion max_tasks
      ∷ same_callbacks task_decompress_lz4_block compress_completion max_tasks
      ∷ same_callbacks task_decompress_lz4_stream compress_completion max_tasks
      ∷ [];
}

unfoldable pub sha_context : ℕ → Constructor
sha_context max_tasks = record {
  demands = some sha_capability;
  calls = plain_conf max_tasks task_hash ∷ plain_conf max_tasks task_partial_hash ∷ [];
}

unfoldable pub aes_gcm_context : ℕ → Constructor
aes_gcm_context num_tasks = record {
  demands = none;
  calls = plain_conf num_tasks task_encrypt ∷ plain_conf num_tasks task_decrypt ∷ [];
}

unfoldable pub ec_context : ℕ → Constructor
ec_context max_tasks = record {
  demands = some erasure_coding_capability;
  calls =
      plain_conf max_tasks task_ec_create
      ∷ plain_conf max_tasks task_ec_update
      ∷ plain_conf max_tasks task_ec_recover
      ∷ [];
}

unfoldable pub dma_context : ℕ → Constructor
dma_context max_tasks = record {
  demands = some dma_capability;
  calls = plain_conf max_tasks task_memcpy ∷ [];
}

unfoldable pub consumer : ℕ → Constructor
consumer max_tasks = record {
  demands = none;
  calls = same_callbacks task_post_recv post_recv_completion max_tasks ∷ [];
}

unfoldable pub producer : ℕ → Constructor
producer max_tasks = record { demands = none; calls = plain_conf max_tasks task_producer_send ∷ [] }

-- `sync_event_publisher_location` and `sync_event_subscriber_location`; a device is its handle.
pub data Publisher : Type 0 where
  location_pci location_remote_net : Publisher
  on_cpu : ℕ → Publisher

pub data Subscriber : Type 0 where
  location_pci : Subscriber
  on_cpu : ℕ → Subscriber

-- `sync_event::init_callbacks`
unfoldable pub init_callbacks : ℕ → List SetupCall
init_callbacks max_tasks =
    plain_conf max_tasks task_event_get
    ∷ plain_conf max_tasks task_notify_add
    ∷ plain_conf max_tasks task_notify_set
    ∷ plain_conf max_tasks task_wait_eq
    ∷ plain_conf max_tasks task_wait_neq
    ∷ []

-- `sync_event::init_add_publisher`
unfoldable pub init_add_publisher : Publisher → SetupCall
init_add_publisher Publisher.location_pci = set_property publisher_remote_pci []
init_add_publisher Publisher.location_remote_net = set_property publisher_remote_net []
init_add_publisher (Publisher.on_cpu dev) = set_property publisher_cpu (dev ∷ [])

-- `sync_event::init_add_subscriber`
unfoldable pub init_add_subscriber : Subscriber → SetupCall
init_add_subscriber Subscriber.location_pci = set_property subscriber_remote_pci []
init_add_subscriber (Subscriber.on_cpu dev) = set_property subscriber_cpu (dev ∷ [])

unfoldable pub add_publishers : List Publisher → List SetupCall
unfolding init_add_publisher
add_publishers [] = []
add_publishers (p ∷ ps) = init_add_publisher p ∷ add_publishers ps

unfoldable pub add_subscribers : List Subscriber → List SetupCall
unfolding init_add_subscriber
add_subscribers [] = []
add_subscribers (s ∷ ss) = init_add_subscriber s ∷ add_subscribers ss

-- The constructor over ranges; the one over a publisher and a subscriber is the case of one each.
unfoldable pub sync_event : List Publisher → List Subscriber → ℕ → Constructor
unfolding init_callbacks add_publishers add_subscribers
sync_event publishers subscribers max_tasks = record {
  demands = none;
  calls = init_callbacks max_tasks ++ (add_publishers publishers ++ add_subscribers subscribers);
}

-- The constructor from an export.
unfoldable pub sync_event_from_export : ℕ → Constructor
unfolding init_callbacks
sync_event_from_export max_tasks = record { demands = none; calls = init_callbacks max_tasks }

pub record RdmaConfig : Type 0 where
  pub permissions : ℕ  -- uint32
  pub gid : Option ℕ  -- uint32
  pub max_tasks : ℕ  -- uint32
  pub connections : ℕ  -- uint16
  pub transport : ℕ

abbrev pub rdma_confs : ℕ → List SetupCall
rdma_confs max_tasks =
    same_callbacks task_rdma_receive receive_completion max_tasks
    ∷ plain_conf max_tasks task_rdma_send
    ∷ plain_conf max_tasks task_rdma_send_imm
    ∷ plain_conf max_tasks task_rdma_read
    ∷ plain_conf max_tasks task_rdma_write
    ∷ plain_conf max_tasks task_rdma_write_imm
    ∷ plain_conf max_tasks task_atomic_cmp_swp
    ∷ plain_conf max_tasks task_atomic_fetch_add
    ∷ plain_conf max_tasks task_remote_event_get
    ∷ plain_conf max_tasks task_remote_notify_set
    ∷ plain_conf max_tasks task_remote_notify_add
    ∷ []

abbrev pub rdma_properties : RdmaConfig → List SetupCall
rdma_properties config =
    set_property rdma_permissions (config.permissions ∷ [])
    ∷ (optional gid_index config.gid
        ++ (set_property max_num_connections (config.connections ∷ [])
            ∷ set_property transport_type (config.transport ∷ [])
            ∷ set_property connection_state_callbacks []
            ∷ []))

unfoldable pub rdma_context : RdmaConfig → Constructor
rdma_context config = record {
  demands = none;
  calls = rdma_properties config ++ rdma_confs config.max_tasks;
}
