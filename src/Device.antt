-- ===== src/Device.antt =====
-- Devices and their representors (shoc/device.hpp, shoc/device.cpp): how they are found. A device is
-- known by the pointer in DOCA's list, an open one by its handle; a text is the list of its characters.
pub mod Finding
mod Tests
use shoc.Base.{
  ℕ, zero, suc, Bool, true, false, ◌&&◌, not, Option, none, some, List, [], ◌∷◌, ◌++◌, ◌==◌,
  if◌then◌else◌,
}
use shoc.Doca.{DocaError, is_success, not_found}
use shoc.Error.{Outcome, ok, throws, doca_exception, ◌>>=◌, ◌>>◌, enforce_success}

pub data DeviceCapability : Type 0 where
  compress_deflate comch_server comch_client dma rdma aes_gcm sha : DeviceCapability
  sync_event_pci erasure_coding : DeviceCapability
  eth_rxq_cpu_cyclic eth_rxq_cpu_managed_mempool eth_rxq_cpu_regular : DeviceCapability
  eth_txq_cpu_regular eth_txq_l3_chksum_offload eth_txq_l4_chksum_offload : DeviceCapability

-- The questions that DOCA is asked about a device.
pub data CapQuery : Type 0 where
  cap_compress_deflate cap_decompress_deflate : CapQuery
  cap_comch_client cap_comch_server cap_comch_consumer cap_comch_producer : CapQuery
  cap_dma_memcpy : CapQuery
  cap_rdma_receive cap_rdma_send cap_rdma_send_imm cap_rdma_read cap_rdma_write : CapQuery
  cap_rdma_write_imm cap_rdma_atomic_cmp_swp cap_rdma_atomic_fetch_add : CapQuery
  cap_rdma_sync_event_get cap_rdma_sync_event_notify_set : CapQuery
  cap_rdma_sync_event_notify_add : CapQuery
  cap_aes_gcm_encrypt cap_aes_gcm_decrypt : CapQuery
  cap_sha_hash_sha256 cap_sha_partial_hash_sha256 : CapQuery
  cap_sync_event_export_to_remote_pci cap_sync_event_wait_eq : CapQuery
  cap_ec_create cap_ec_update cap_ec_recover : CapQuery
  cap_eth_rxq_cyclic_cpu cap_eth_rxq_managed_mempool_cpu cap_eth_rxq_regular_cpu : CapQuery
  cap_eth_txq_regular_cpu cap_eth_txq_l3_chksum_offload : CapQuery
  cap_eth_txq_l4_chksum_offload : CapQuery

unfoldable pub queries_of : DeviceCapability → List CapQuery
queries_of compress_deflate = cap_compress_deflate ∷ cap_decompress_deflate ∷ []
queries_of comch_client = cap_comch_client ∷ cap_comch_consumer ∷ cap_comch_producer ∷ []
queries_of comch_server = cap_comch_server ∷ cap_comch_consumer ∷ cap_comch_producer ∷ []
queries_of dma = cap_dma_memcpy ∷ []
queries_of rdma =
    cap_rdma_receive ∷ cap_rdma_send ∷ cap_rdma_send_imm ∷ cap_rdma_read ∷ cap_rdma_write
    ∷ cap_rdma_write_imm ∷ cap_rdma_atomic_cmp_swp ∷ cap_rdma_atomic_fetch_add
    ∷ cap_rdma_sync_event_get ∷ cap_rdma_sync_event_notify_set ∷ cap_rdma_sync_event_notify_add ∷ []
queries_of aes_gcm = cap_aes_gcm_encrypt ∷ cap_aes_gcm_decrypt ∷ []
queries_of sha = cap_sha_hash_sha256 ∷ cap_sha_partial_hash_sha256 ∷ []
queries_of sync_event_pci = cap_sync_event_export_to_remote_pci ∷ cap_sync_event_wait_eq ∷ []
queries_of erasure_coding = cap_ec_create ∷ cap_ec_update ∷ cap_ec_recover ∷ []
queries_of eth_rxq_cpu_cyclic = cap_eth_rxq_cyclic_cpu ∷ []
queries_of eth_rxq_cpu_managed_mempool = cap_eth_rxq_managed_mempool_cpu ∷ []
queries_of eth_rxq_cpu_regular = cap_eth_rxq_regular_cpu ∷ []
queries_of eth_txq_cpu_regular = cap_eth_txq_regular_cpu ∷ []
queries_of eth_txq_l3_chksum_offload = cap_eth_txq_l3_chksum_offload ∷ []
queries_of eth_txq_l4_chksum_offload = cap_eth_txq_l4_chksum_offload ∷ []

abbrev pub Text : Type 0
Text = List ℕ

abbrev pub same_text : Text → Text → Bool
same_text [] [] = true
same_text [] (d ∷ t) = false
same_text (c ∷ s) [] = false
same_text (c ∷ s) (d ∷ t) = c == d && same_text s t

-- What DOCA answers about a device: to the questions, to the comparison of a PCI address (with the
-- number that it writes), to the question for the name (with the name), and to opening it.
pub record DevInfo : Type 0 where
  pub supports : CapQuery → DocaError
  pub is_equal_pci_addr : Text → DocaError × ℕ
  pub ibdev_name : DocaError × Text
  pub dev_open : DocaError × Option ℕ

abbrev pub all_supported : (CapQuery → DocaError) → List CapQuery → Bool
all_supported supports [] = true
all_supported supports (q ∷ qs) = is_success (supports q) && all_supported supports qs

unfoldable pub devinfo_has_capability : DevInfo → DeviceCapability → Bool
unfolding queries_of
devinfo_has_capability dev required_cap = all_supported dev.supports (queries_of required_cap)

unfoldable pub devinfo_has_capabilities : DevInfo → List DeviceCapability → Bool
unfolding devinfo_has_capability
devinfo_has_capabilities dev [] = true
devinfo_has_capabilities dev (cap ∷ required_caps) =
    devinfo_has_capability dev cap && devinfo_has_capabilities dev required_caps

-- What a device can be searched by; a function is what it answers for the device.
pub data Condition : Type 0 where
  capability : DeviceCapability → Condition
  pci_address ibdev : Text → Condition
  has_cap_fn : (DevInfo → DocaError) → Condition
  pred_fn : (DevInfo → Bool) → Condition

-- `devinfo_matches`
unfoldable pub devinfo_matches : DevInfo → Condition → Bool
unfolding devinfo_has_capability
devinfo_matches dev (capability cap) = devinfo_has_capability dev cap
devinfo_matches dev (pci_address addr) =
    let (err, is_addr_equal) = dev.is_equal_pci_addr addr in
    is_success err && not (is_addr_equal == 0)
devinfo_matches dev (ibdev name) = is_success dev.ibdev_name.0 && same_text dev.ibdev_name.1 name
devinfo_matches dev (has_cap_fn f) = is_success (f dev)
devinfo_matches dev (pred_fn f) = f dev

unfoldable pub matches_all : DevInfo → List Condition → Bool
unfolding devinfo_matches
matches_all dev [] = true
matches_all dev (c ∷ cs) = devinfo_matches dev c && matches_all dev cs

-- `device::device(doca_dev *)`
unfoldable pub device_of_handle : Option ℕ → Outcome ℕ
device_of_handle none = throws (doca_exception not_found)
device_of_handle (some h) = ok h

-- `device::device(doca_devinfo *)`
unfoldable pub open_device : DevInfo → Outcome (Option ℕ)
unfolding enforce_success
open_device dev = do enforce_success dev.dev_open.0; ok dev.dev_open.1

-- `device::find`, over the devices that DOCA lists
unfoldable pub find : List Condition → List DevInfo → Outcome ℕ
unfolding matches_all device_of_handle
find conditions [] = throws (doca_exception not_found)
find conditions (dev ∷ devs) =
    let rest = find conditions devs in
    if matches_all dev conditions && is_success dev.dev_open.0
    then device_of_handle dev.dev_open.1
    else rest

-- What DOCA answers about a representor.
pub record RepInfo : Type 0 where
  pub is_equal_pci_addr : Text → DocaError × ℕ
  pub vuid : DocaError × Text
  pub rep_open : DocaError × ℕ

unfoldable pub open_rep : RepInfo → Outcome ℕ
unfolding enforce_success
open_rep rep = do enforce_success rep.rep_open.0; ok rep.rep_open.1

-- `device_representor::find_by_pci_addr`
unfoldable pub find_by_pci_addr : Text → List RepInfo → Outcome ℕ
unfolding open_rep
find_by_pci_addr pci_addr [] = throws (doca_exception not_found)
find_by_pci_addr pci_addr (rep ∷ reps) =
    let rest = find_by_pci_addr pci_addr reps in
    let (err, is_addr_equal) = rep.is_equal_pci_addr pci_addr in
    if is_success err && not (is_addr_equal == 0) then open_rep rep else rest

-- `device_representor::find_by_vuid`
unfoldable pub find_by_vuid : Text → List RepInfo → Outcome ℕ
unfolding open_rep
find_by_vuid vuid [] = throws (doca_exception not_found)
find_by_vuid vuid (rep ∷ reps) =
    let rest = find_by_vuid vuid reps in
    if is_success rep.vuid.0
    then (if same_text vuid rep.vuid.1 then open_rep rep else rest)
    else rest

-- A question for an address or a name of a device (`get_mac_addr`, `get_ipv4_addr`, `get_ipv6_addr`,
-- `get_pci_addr_str`, `get_iface_name`, `get_ibdev_name`, `get_vuid`).
unfoldable pub get_text : DocaError → Text → Outcome Text
unfolding enforce_success
get_text answer text = do enforce_success answer; ok text

-- `device_list`, and the lists that were destroyed
pub record DeviceList : Type 0 where
  pub dev_list : Option ℕ
  pub nb_devs : ℕ

abbrev pub empty_list : DeviceList
empty_list = record { dev_list = none; nb_devs = 0 }

abbrev pub destroy_list : Option ℕ → List ℕ → List ℕ
destroy_list none destroyed = destroyed
destroy_list (some l) destroyed = destroyed ++ l ∷ []

-- `device_list::clear`
unfoldable pub clear : DeviceList → List ℕ → DeviceList × List ℕ
clear l destroyed = elim l.dev_list [
  | none ↦ (l, destroyed)
  | some p ↦ (empty_list, destroyed ++ p ∷ [])
]

-- `device_list::operator=(device_list &&)`, from another list: what the target and the other are
-- then, and the lists that were destroyed.
unfoldable pub move_assign : DeviceList → DeviceList → List ℕ → DeviceList × DeviceList × List ℕ
unfolding clear
move_assign this other destroyed = (other, empty_list, (clear this destroyed).1)
