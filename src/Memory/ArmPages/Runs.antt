-- ===== src/Memory/ArmPages/Runs.antt =====
-- One allocation, and the theorems at it.
use nextcore_efi.Common.{List, Option, Result, [], ap, err, none, ok, refl, ℕ, ◌++◌, ◌∷◌, ◌≡◌}
use nextcore_efi.Status.{Status, invalid_parameter, compromised_data}
use nextcore_efi.Memory.Coverage.{share_arm, add_share, tally, reach, walk, validate_entries}
use nextcore_efi.Memory.Calls.{Block, Call, allocates, frees, zeroes, allocated, freed, MemoryMap}
use nextcore_efi.Memory.ArmPages.{
  ArmPages, page_request, validate_map, place, settle, allocate_kind, drop_pages,
}
use nextcore_efi.Memory.ArmPages.Laws.{
  IsPlaced, IsOwned, allocate_kind-IsOwned, allocate_kind_balanced,
}

abbrev at_5000 : ℕ → Option ℕ → ℕ → Result Status ℕ
at_5000 count fixed ty = ok 0x5000

abbrev loader_map : MemoryMap
loader_map = record {
  desc_version = 1;
  desc_size = 48;
  map_size = 48;
  entries = record { ty = 2; phys_start = 0x5000; page_count = 7 } ∷ [];
}

abbrev owner : ArmPages
owner = record { original = 0x5000; count = 7; base = 0x8000; bytes = 0x4000; memory_type = 2 }

abbrev answer : Result Status ArmPages × List Call
answer = allocate_kind 40 at_5000 (ok loader_map) 0x4000 none 2

allocates_run : answer ≡ (ok owner, allocates 0x5000 7 ∷ zeroes 0x8000 0x4000 ∷ [])
unfolding allocate_kind page_request settle place validate_map validate_entries tally share_arm
    add_share walk reach
allocates_run = refl

-- A map that gives the pages another type frees them again.
refused_run :
    allocate_kind 40 at_5000 (ok loader_map) 0x4000 none 1
    ≡ (err compromised_data, allocates 0x5000 7 ∷ frees 0x5000 7 ∷ [])
unfolding allocate_kind page_request settle place validate_map validate_entries tally share_arm
    add_share walk reach
refused_run = refl

unaligned_run : allocate_kind 40 at_5000 (ok loader_map) 0x4001 none 2 ≡ (err invalid_parameter, [])
unfolding allocate_kind page_request
unaligned_run = refl

allocate_kind-IsOwned_example :
    IsPlaced 0x4000 none 2 owner
    × ((m : MemoryMap) × (◌≡◌ {A = Result Status MemoryMap} (ok loader_map) (ok m))
        × IsOwned owner m)
    × (answer.1 ≡ allocates 0x5000 7 ∷ zeroes 0x8000 0x4000 ∷ [])
allocate_kind-IsOwned_example =
    allocate_kind-IsOwned 40 at_5000 (ok loader_map) 0x4000 none 2 owner
      (ap (λ r. r.0) allocates_run)

abbrev owner_block : Block
owner_block = record { address = 0x5000; pages = 7 }

allocate_kind_balanced_example :
    ((s : Status) → answer.0 ≡ err s → allocated owner_block answer.1 ≡ freed owner_block answer.1)
    × ((p : ArmPages)
        → answer.0 ≡ ok p
        → (freed owner_block answer.1 ≡ 0)
          × (allocated owner_block (answer.1 ++ drop_pages p)
              ≡ freed owner_block (answer.1 ++ drop_pages p)))
allocate_kind_balanced_example =
    allocate_kind_balanced 40 at_5000 (ok loader_map) 0x4000 none 2 owner_block
