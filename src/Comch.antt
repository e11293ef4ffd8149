-- ===== src/Comch.antt =====
-- The message and data channel between host and DPU (shoc/comch).
pub mod RemoteConsumer
pub mod Server
pub mod Callbacks
pub mod Client
pub mod Resolve
use shoc.Base.{ℕ, Bool, true, false, List}

-- `connection_state`
pub data ConnectionState : Type 0 where
  connected disconnecting disconnected : ConnectionState

abbrev pub is_connected : ConnectionState → Bool
is_connected connected = true
is_connected _ = false

abbrev pub is_disconnecting : ConnectionState → Bool
is_disconnecting disconnecting = true
is_disconnecting _ = false

abbrev pub is_disconnected : ConnectionState → Bool
is_disconnected disconnected = true
is_disconnected _ = false

-- `message`, by its bytes
abbrev pub Message : Type 0
Message = List ℕ
