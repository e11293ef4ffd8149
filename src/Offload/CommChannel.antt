-- ===== src/Offload/CommChannel.antt =====
-- The constructors of server and client (shoc/comch/server.cpp, shoc/comch/client.cpp), behind the call
-- that makes the handle, and the task that both send messages with.
use shoc.Base.{ℕ, some, List, [], ◌∷◌}
use shoc.Offload.{
  task_comch_send, plain_status, SetupCall, set_property, comch_server_capability,
  comch_client_capability, Constructor, plain_conf, msg_recv_event, connection_event,
  consumer_event, max_msg_size, recv_queue_size,
}
use shoc.Offload.Operations.{Task, number, handle}

-- `server_limits` and `client_limits`
pub record Limits : Type 0 where
  pub num_send_tasks : ℕ  -- uint32
  pub msg_size : ℕ  -- uint32, `max_msg_size`
  pub queue_size : ℕ  -- uint32, `recv_queue_size`

abbrev limit_calls : Limits → List SetupCall
limit_calls limits =
    set_property max_msg_size (limits.msg_size ∷ [])
    ∷ set_property recv_queue_size (limits.queue_size ∷ [])
    ∷ []

unfoldable pub comch_server : Limits → Constructor
comch_server limits = record {
  demands = some comch_server_capability;
  calls =
      plain_conf limits.num_send_tasks task_comch_send
      ∷ set_property msg_recv_event []
      ∷ set_property connection_event []
      ∷ set_property consumer_event []
      ∷ limit_calls limits;
}

unfoldable pub comch_client : Limits → Constructor
comch_client limits = record {
  demands = some comch_client_capability;
  calls =
      plain_conf limits.num_send_tasks task_comch_send
      ∷ set_property msg_recv_event []
      ∷ set_property consumer_event []
      ∷ limit_calls limits;
}

-- `server_connection::send` and `client::send` once they are connected: the connection, and where the
-- message is and how long.
unfoldable pub send_message : ℕ → ℕ → ℕ → Task
send_message connection message size = record {
  type = task_comch_send;
  user_data = plain_status;
  args = handle connection ∷ handle message ∷ number size ∷ [];
}
