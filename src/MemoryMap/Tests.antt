-- ===== src/MemoryMap/Tests.antt =====
-- Runs of the constructors of memory maps.
use shoc.Base.{ℕ, zero, suc, ◌≡◌, refl, [], ◌∷◌}
use shoc.Doca.{DocaError, DocaError-discrete, success, not_supported}
use shoc.Error.{ok, throws, doca_exception, enforce_success, enforce_success_as, enforce}
use shoc.Offload.Setup.{enforce_each}
use shoc.Buffer.{Span}
use shoc.MemoryMap.{
  create_mmap, start_mmap, set_memrange, add_dev, set_permissions, add_devices, mapping_calls,
  new_memory_map,
}

abbrev page : Span
page = record { base = 4096; size = 4096 }

-- The second device is refused.
abbrev fourth_refused : ℕ → DocaError
fourth_refused zero = success
fourth_refused (suc zero) = success
fourth_refused (suc (suc zero)) = success
fourth_refused (suc (suc (suc n))) = not_supported

maps_two_devices : new_memory_map (λ n. success) (7 ∷ 8 ∷ []) page 1 ≡ (
  (create_mmap, success)
      ∷ (set_memrange page, success)
      ∷ (add_dev 7, success)
      ∷ (add_dev 8, success)
      ∷ (set_permissions 1, success)
      ∷ (start_mmap, success)
      ∷ [],
  ok page,
)
unfolding new_memory_map mapping_calls add_devices enforce_each enforce_success enforce_success_as
    enforce DocaError-discrete
maps_two_devices = refl

second_device_refused :
    (new_memory_map fourth_refused (7 ∷ 8 ∷ []) page 1).1 ≡ throws (doca_exception not_supported)
unfolding new_memory_map mapping_calls add_devices enforce_each enforce_success enforce_success_as
    enforce DocaError-discrete
second_device_refused = refl
