-- ===== src/DevemuPci/PciType.antt =====
-- The type of an emulated PCI device (shoc/devemu_pci.cpp): its setters, and starting and stopping it.
use shoc.Base.{ℕ, Bool, true, false, ◌&&◌, not, List, [], ◌∷◌, ◌==◌, if◌then◌else◌}
use shoc.Doca.{DocaError, success, is_success}
use shoc.Error.{Outcome, ok, ◌>>◌, enforce_success}

-- The functions of DOCA that the setters call.
pub data TypeFunction : Type 0 where
  doca_set_dev doca_set_device_id doca_set_vendor_id doca_set_subsystem_id : TypeFunction
  doca_set_subsystem_vendor_id doca_set_revision_id doca_set_class_code : TypeFunction
  doca_set_num_msix doca_set_num_db doca_set_memory_bar_conf doca_set_io_bar_conf : TypeFunction
  doca_set_bar_db_region_by_offset_conf doca_set_bar_db_region_by_data_conf : TypeFunction
  doca_set_bar_msix_table_region_conf doca_set_bar_msix_pba_region_conf : TypeFunction
  doca_set_bar_stateful_region_conf : TypeFunction

-- The setters with their arguments: a device is its handle.
pub data Setter : Type 0 where
  set_dev set_device_id set_vendor_id set_subsystem_id set_subsystem_vendor_id : ℕ → Setter
  set_revision_id set_class_code set_num_msix set_num_db : ℕ → Setter
  set_memory_bar_conf : ℕ → ℕ → ℕ → Bool → Setter
  set_io_bar_conf : ℕ → ℕ → Setter
  set_bar_db_region_by_offset_conf : ℕ → ℕ → ℕ → ℕ → ℕ → Setter
  set_bar_db_region_by_data_conf : ℕ → ℕ → ℕ → ℕ → ℕ → ℕ → Setter
  set_bar_msix_table_region_conf set_bar_msix_pba_region_conf : ℕ → ℕ → ℕ → Setter
  set_bar_stateful_region_conf : ℕ → ℕ → ℕ → Setter

pub record Call : Type 0 where
  pub function : TypeFunction
  pub args : List ℕ

abbrev call1 : TypeFunction → ℕ → Call
call1 f a = record { function = f; args = a ∷ [] }

abbrev region : TypeFunction → ℕ → ℕ → ℕ → Call
region f id start_addr size = record { function = f; args = id ∷ start_addr ∷ size ∷ [] }

-- The call that a setter makes on the handle.
unfoldable pub call_of : Setter → Call
call_of (set_dev dev) = call1 doca_set_dev dev
call_of (set_device_id n) = call1 doca_set_device_id n
call_of (set_vendor_id n) = call1 doca_set_vendor_id n
call_of (set_subsystem_id n) = call1 doca_set_subsystem_id n
call_of (set_subsystem_vendor_id n) = call1 doca_set_subsystem_vendor_id n
call_of (set_revision_id n) = call1 doca_set_revision_id n
call_of (set_class_code n) = call1 doca_set_class_code n
call_of (set_num_msix n) = call1 doca_set_num_msix n
call_of (set_num_db n) = call1 doca_set_num_db n
call_of (set_memory_bar_conf id log_sz memory_type prefetchable) = record {
  function = doca_set_memory_bar_conf;
  args = id ∷ log_sz ∷ memory_type ∷ (if prefetchable then 1 else 0) ∷ [];
}
call_of (set_io_bar_conf id log_sz) = record {
  function = doca_set_io_bar_conf;
  args = id ∷ log_sz ∷ [];
}
call_of (set_bar_db_region_by_offset_conf id start_addr size log_db_size log_stride_size) = record {
  function = doca_set_bar_db_region_by_offset_conf;
  args = id ∷ start_addr ∷ size ∷ log_db_size ∷ log_stride_size ∷ [];
}
call_of (set_bar_db_region_by_data_conf id start_addr size log_db_size msbyte lsbyte) = record {
  function = doca_set_bar_db_region_by_data_conf;
  args = id ∷ start_addr ∷ size ∷ log_db_size ∷ msbyte ∷ lsbyte ∷ [];
}
call_of (set_bar_msix_table_region_conf id start_addr size) =
    region doca_set_bar_msix_table_region_conf id start_addr size
call_of (set_bar_msix_pba_region_conf id start_addr size) =
    region doca_set_bar_msix_pba_region_conf id start_addr size
call_of (set_bar_stateful_region_conf id start_addr size) =
    region doca_set_bar_stateful_region_conf id start_addr size

-- A supported capability: DOCA's answer, and the number that it writes
-- (`cap_is_mmap_add_dev_supported`, `is_hotplug_supported`, `is_mgmt_supported`).
unfoldable pub is_supported : DocaError → ℕ → Bool
is_supported err supported = is_success err && not (supported == 0)

-- `pci_type::is_started`
unfoldable pub is_started : DocaError → ℕ → Bool
is_started err started = is_success err && not (started == 0)

-- `pci_type::stop`: whether DOCA is asked, and the result.
unfoldable pub stop : DocaError → ℕ → DocaError → Bool × DocaError
unfolding is_started
stop err started stopped = if is_started err started then (true, stopped) else (false, success)

-- `pci_type::~pci_type`: an error is logged.
unfoldable pub destroy : DocaError → ℕ → DocaError → Bool
unfolding stop
destroy err started stopped = not (is_success (stop err started stopped).1)

-- The constructor and `create_representor`: a handle that DOCA gives.
unfoldable pub create : DocaError → ℕ → Outcome ℕ
unfolding enforce_success
create answer handle = do enforce_success answer; ok handle
