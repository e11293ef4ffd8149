-- ===== src/Device/Tests.antt =====
-- An instance of the theorem on searches for devices, and runs.
use shoc.Base.{ℕ, ◌≡◌, refl, ◌⊎◌, none, some, List, [], ◌∷◌}
use shoc.Doca.{DocaError, DocaError-discrete, success, not_supported, in_use, not_found}
use shoc.Error.{ok, throws, doca_exception, enforce_success, enforce_success_as, enforce}
use shoc.Device.{
  CapQuery, cap_dma_memcpy, dma, sha, DevInfo, capability, ibdev, find, matches_all,
  devinfo_matches, devinfo_has_capability, queries_of, device_of_handle, RepInfo, find_by_vuid,
  open_rep,
}
use shoc.Device.Finding.{FoundAt, NotFound, find_lem}

abbrev only_dma : CapQuery → DocaError
only_dma cap_dma_memcpy = success
only_dma _ = not_supported

-- The first device has no DMA, the second cannot be opened.
abbrev plain_nic : DevInfo
plain_nic = record {
  supports = λ q. not_supported;
  is_equal_pci_addr = λ t. (success, 0);
  ibdev_name = (success, 109 ∷ []);
  dev_open = (success, some 1);
}

abbrev busy : DevInfo
busy = record {
  supports = only_dma;
  is_equal_pci_addr = λ t. (success, 0);
  ibdev_name = (success, 110 ∷ []);
  dev_open = (in_use, none);
}

abbrev usable : DevInfo
usable = record {
  supports = only_dma;
  is_equal_pci_addr = λ t. (success, 1);
  ibdev_name = (success, 111 ∷ []);
  dev_open = (success, some 3);
}

abbrev three : List DevInfo
three = plain_nic ∷ busy ∷ usable ∷ []

find_lem_example :
    ((k : ℕ) × (dev : DevInfo) × FoundAt (capability dma ∷ []) three k dev)
    ⊎ NotFound (capability dma ∷ []) three
find_lem_example = find_lem (capability dma ∷ []) three

third_is_found : find (capability dma ∷ []) three ≡ ok 3
unfolding find matches_all devinfo_matches devinfo_has_capability queries_of device_of_handle
third_is_found = refl

none_has_sha :
    find (capability sha ∷ ibdev (111 ∷ []) ∷ []) three ≡ throws (doca_exception not_found)
unfolding find matches_all devinfo_matches devinfo_has_capability queries_of device_of_handle
none_has_sha = refl

-- A representor that matches is not passed over if it cannot be opened.
abbrev reps : List RepInfo
reps =
    record {
      is_equal_pci_addr = λ t. (success, 0);
      vuid = (success, 65 ∷ []);
      rep_open = (in_use, 0);
    }
    ∷ record {
      is_equal_pci_addr = λ t. (success, 0);
      vuid = (success, 65 ∷ []);
      rep_open = (success, 8);
    }
    ∷ []

first_match_decides : find_by_vuid (65 ∷ []) reps ≡ throws (doca_exception in_use)
unfolding find_by_vuid open_rep enforce_success enforce_success_as enforce DocaError-discrete
first_match_decides = refl
