-- ===== src/MemoryMap.antt =====
-- Memory maps (shoc/memory_map.hpp, shoc/memory_map.cpp), and the remote ones of emulated devices
-- (`remote_mmap` in shoc/devemu_pci.cpp).
mod Tests
use shoc.Base.{
  ℕ, zero, suc, Bool, true, false, Option, none, some, List, [], ◌∷◌, ◌++◌, if◌then◌else◌, length,
}
use shoc.Doca.{DocaError}
use shoc.Error.{Outcome, ok, throws, terminates, undefined, ◌>>=◌, ◌>>◌, enforce_success}
use shoc.Offload.Setup.{enforce_each}
use shoc.Buffer.{Span}

-- The calls on a new map; a device is its handle.
pub data MmapCall : Type 0 where
  create_mmap start_mmap : MmapCall
  set_memrange : Span → MmapCall
  set_max_num_devices add_dev set_permissions : ℕ → MmapCall

unfoldable pub add_devices : List ℕ → List MmapCall
add_devices [] = []
add_devices (dev ∷ devices) = add_dev dev ∷ add_devices devices

-- The calls of the constructor for a range of memory.
unfoldable pub mapping_calls : List ℕ → Span → ℕ → List MmapCall
unfolding add_devices
mapping_calls devices range permissions =
    create_mmap
    ∷ set_memrange range
    ∷ (add_devices devices ++ (set_permissions permissions ∷ start_mmap ∷ []))

-- The calls of `pci_dev::remote_mmap`.
unfoldable pub remote_mmap_calls : List ℕ → Span → ℕ → List MmapCall
unfolding add_devices
remote_mmap_calls devices memory permissions =
    create_mmap
    ∷ set_max_num_devices (length devices)
    ∷ (add_devices devices ++ (set_permissions permissions ∷ set_memrange memory ∷ start_mmap ∷ []))

-- The constructor for a range: the calls that are made, and the range that the map keeps.
unfoldable pub new_memory_map :
    (ℕ → DocaError) → List ℕ → Span → ℕ → List (MmapCall × DocaError) × Outcome Span
unfolding enforce_each mapping_calls
new_memory_map answer devices range permissions =
    let (made, result) = enforce_each answer (mapping_calls devices range permissions) in
    (made, result >> ok range)

-- The constructor from an export: created, and asked for its range.
unfoldable pub from_export : DocaError → DocaError → Span → Outcome Span
unfolding enforce_success
from_export created get_memrange range = do
  enforce_success created
  enforce_success get_memrange
  ok range

-- The constructor from a handle, which starts the map if it is not.
unfoldable pub from_handle : Bool → DocaError → DocaError → Span → Outcome Span
unfolding enforce_success
from_handle is_started started get_memrange range = do
  if is_started then ok tt else enforce_success started
  enforce_success get_memrange
  ok range

-- `pci_dev::remote_mmap`: the map is started by the last of its calls.
unfoldable pub remote_mmap :
    (ℕ → DocaError)
    → DocaError
    → Span
    → List ℕ
    → Span
    → ℕ
    → List (MmapCall × DocaError) × Outcome Span
unfolding enforce_each remote_mmap_calls from_handle
remote_mmap answer get_memrange reported devices memory permissions =
    let (made, result) = enforce_each answer (remote_mmap_calls devices memory permissions) in
    (made, result >> from_handle true get_memrange get_memrange reported)

-- `memory_map::export_pci`
unfoldable pub export_pci : DocaError → Span → Outcome Span
unfolding enforce_success
export_pci answer export_desc = do enforce_success answer; ok export_desc
