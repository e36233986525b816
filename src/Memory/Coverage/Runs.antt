-- ===== src/Memory/Coverage/Runs.antt =====
-- Two descriptors that share a range, and the theorems at this map.
use nextcore_efi.Common.{All, List, [], arith, err, ok, refl, ◌<◌, ◌^◌, ◌↔◌, ◌∷◌, ◌≡◌}
use nextcore_efi.Status.{compromised_data}
use nextcore_efi.Memory.Descriptor.{Descriptor, page_size}
use nextcore_efi.Memory.Coverage.{
  share, share_arm, add_share, tally, reach, walk, coverage, validate_entries,
}
use nextcore_efi.Memory.Coverage.Tally.{meeting_count, IsFair, IsFairArm}
use nextcore_efi.Memory.Coverage.Exact.{IsExact, coverage_iff, validate_entries_iff}

abbrev low : Descriptor
low = record { ty = 2; phys_start = 0x1000; page_count = 2 }

abbrev high : Descriptor
high = record { ty = 2; phys_start = 0x3000; page_count = 1 }

abbrev two : List Descriptor
two = high ∷ low ∷ []

coverage_run : coverage page_size two 0x2000 0x2000 2 ≡ ok 2
unfolding coverage tally share add_share walk reach
coverage_run = refl

-- A gap, an overlap and another type are refused.
coverage_gap : coverage page_size two 0x2000 0x3000 2 ≡ err compromised_data
unfolding coverage tally share add_share walk reach
coverage_gap = refl

coverage_overlap : coverage page_size (low ∷ two) 0x2000 0x2000 2 ≡ err compromised_data
unfolding coverage tally share add_share walk reach
coverage_overlap = refl

coverage_type : coverage page_size two 0x2000 0x2000 7 ≡ err compromised_data
unfolding coverage tally share add_share walk reach
coverage_type = refl

validate_entries_run : validate_entries two 0x2000 0x2000 2 ≡ ok tt
unfolding validate_entries tally share_arm add_share walk reach
validate_entries_run = refl

coverage_iff_example : (coverage page_size two 0x2000 0x2000 2 ≡ ok 2) ↔ (
    (0x4000 < 2 ^ 64)
    × All (IsFair 0x2000 0x4000 2) two
    × IsExact two 0x2000 0x2000
    × (2 ≡ meeting_count 0x2000 0x4000 two))
coverage_iff_example = coverage_iff two 0x2000 0x2000 2 2

validate_entries_iff_example :
    (validate_entries two 0x2000 0x2000 2 ≡ ok tt)
    ↔ ((0x4000 < 2 ^ 64) × All (IsFairArm 0x2000 0x4000 2) two × IsExact two 0x2000 0x2000)
unfolding meeting_count
validate_entries_iff_example = validate_entries_iff two 0x2000 0x2000 2 (omega arith)
