-- ===== src/Memory/Descriptor.antt =====
-- `MemoryDescriptor` and the memory types of UEFI (section 7.2) that the program names.
use nextcore_efi.Common.{Bool, leb, ltb, max, min, ℕ, ◌%◌, ◌&&◌, ◌*◌, ◌+◌, ◌<◌, ◌^◌, ◌≡◌}

pub record Descriptor : Type 0 where
  pub ty : ℕ
  pub phys_start : ℕ
  pub page_count : ℕ

abbrev pub loader_code : ℕ
loader_code = 1

abbrev pub loader_data : ℕ
loader_data = 2

abbrev pub conventional : ℕ
conventional = 7

abbrev pub acpi_reclaim : ℕ
acpi_reclaim = 9

abbrev pub acpi_non_volatile : ℕ
acpi_non_volatile = 10

abbrev pub page_size : ℕ
page_size = 4096

-- `d.phys_start + d.page_count * 4096`
abbrev pub limit_of : Descriptor → ℕ
limit_of d = d.phys_start + d.page_count * page_size

-- Neither the product nor the sum leaves 64 bits.
abbrev pub IsInRange : Descriptor → Type 0
IsInRange d = limit_of d < 2 ^ 64

abbrev pub IsAligned : Descriptor → Type 0
IsAligned d = d.phys_start % page_size ≡ 0

-- Whether the descriptor covers the byte at an address.
abbrev pub covers : ℕ → Descriptor → Bool
covers a d = leb d.phys_start a && ltb a (limit_of d)

-- Whether it covers a byte of a range.
abbrev pub meets : ℕ → ℕ → Descriptor → Bool
meets base end d = ltb (max base d.phys_start) (min end (limit_of d))
