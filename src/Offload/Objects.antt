-- ===== src/Offload/Objects.antt =====
-- Objects that contexts give out and that one call of DOCA makes: the matrices of erasure coding
-- (shoc/erasure_coding.cpp), exports of sync events (shoc/sync_event.cpp), and addresses and
-- connections of RDMA (shoc/rdma.cpp).
use shoc.Base.{ℕ, Option, none, some, List, [], ◌∷◌}
use shoc.Doca.{DocaError, invalid_value}
use shoc.Error.{Outcome, ok, throws, doca_exception, ◌>>◌, enforce_success}
use shoc.Buffer.{Span}
use shoc.Offload.Operations.{Arg, number, handle}

pub data ObjectFunction : Type 0 where
  ec_matrix_create ec_matrix_create_update ec_matrix_create_recover : ObjectFunction
  sync_event_export_to_remote_pci sync_event_export_to_remote_net : ObjectFunction
  remote_net_create_from_export rdma_addr_create rdma_connect rdma_export : ObjectFunction

pub record ObjectCall : Type 0 where
  pub function : ObjectFunction
  pub args : List Arg

abbrev checked {ℓ} :
    {A : Type ℓ} → ObjectFunction → List Arg → DocaError → A → ObjectCall × Outcome A
checked f a answer result = (record { function = f; args = a }, enforce_success answer >> ok result)

-- The three constructors of matrices: on the context's handle, with the handle that DOCA makes.
unfoldable pub coding_matrix : ℕ → ℕ → ℕ → ℕ → DocaError → ℕ → ObjectCall × Outcome ℕ
unfolding enforce_success
coding_matrix ctx type data_block_count rdnc_block_count answer matrix =
    checked ec_matrix_create
      (handle ctx ∷ number type ∷ number data_block_count ∷ number rdnc_block_count ∷ []) answer
      matrix

unfoldable pub update_matrix : ℕ → ℕ → Span → DocaError → ℕ → ObjectCall × Outcome ℕ
unfolding enforce_success
update_matrix ctx coding update_indices answer matrix =
    checked ec_matrix_create_update
      (handle ctx ∷ handle coding ∷ handle update_indices.base ∷ number update_indices.size ∷ [])
      answer matrix

unfoldable pub recover_matrix : ℕ → ℕ → Span → DocaError → ℕ → ObjectCall × Outcome ℕ
unfolding enforce_success
recover_matrix ctx coding missing_indices answer matrix =
    checked ec_matrix_create_recover
      (handle ctx ∷ handle coding ∷ handle missing_indices.base ∷ number missing_indices.size ∷ [])
      answer matrix

unfoldable pub export_to_remote_pci : ℕ → ℕ → DocaError → Span → ObjectCall × Outcome Span
unfolding enforce_success
export_to_remote_pci event dev answer exported =
    checked sync_event_export_to_remote_pci (handle event ∷ handle dev ∷ []) answer exported

unfoldable pub export_to_remote_net : ℕ → DocaError → Span → ObjectCall × Outcome Span
unfolding enforce_success
export_to_remote_net event answer exported =
    checked sync_event_export_to_remote_net (handle event ∷ []) answer exported

-- `sync_event_remote_net::from_export`
unfoldable pub remote_net_from_export : ℕ → Span → DocaError → ℕ → ObjectCall × Outcome ℕ
unfolding enforce_success
remote_net_from_export dev data_stream answer event =
    checked remote_net_create_from_export
      (handle dev ∷ handle data_stream.base ∷ number data_stream.size ∷ []) answer event

-- `rdma_address::rdma_address`: DOCA may succeed without an address.
not_null : Option ℕ → Outcome ℕ
not_null none = throws (doca_exception invalid_value)
not_null (some addr) = ok addr

unfoldable pub new_address : DocaError → Option ℕ → Outcome ℕ
unfolding not_null enforce_success
new_address answer addr = do enforce_success answer; not_null addr

-- `rdma_address::params`
pub record AddressParams : Type 0 where
  pub addr_type : ℕ
  pub address : ℕ
  pub port : ℕ  -- uint16

unfoldable pub address_params : DocaError → AddressParams → Outcome AddressParams
unfolding enforce_success
address_params answer params = do enforce_success answer; ok params

-- `rdma_connection`: its handle, and the details for the other side, which one that the connection
-- manager made has not.
pub record Connection : Type 0 where
  pub conn : ℕ
  pub details : Option Span

unfoldable pub cm_connection : ℕ → Connection
cm_connection conn = record { conn = conn; details = none }

-- `rdma_context::export_connection`
unfoldable pub export_connection : ℕ → DocaError → ℕ → Span → ObjectCall × Outcome Connection
unfolding enforce_success
export_connection rdma answer conn exported =
    checked rdma_export (handle rdma ∷ []) answer (record { conn = conn; details = some exported })

-- `rdma_connection::connect`
unfoldable pub connect_to : ℕ → Connection → Span → DocaError → ObjectCall × Outcome (Unit {0})
unfolding enforce_success
connect_to rdma c remote_details answer =
    checked rdma_connect
      (handle rdma ∷ handle remote_details.base ∷ number remote_details.size ∷ handle c.conn ∷ [])
      answer tt
