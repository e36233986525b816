-- ===== src/Memory/ArmPages.antt =====
-- src/arm_pages.rs: pages owned by one value, with a 16 KiB-aligned usable range.
pub mod Laws
mod Runs
use nextcore_efi.Common.{
  Bool, List, Option, Result, [], checked_add, err, false, leb, ltb, map, none, not, ok, ok_or,
  refuse, some, ℕ, ◌%◌, ◌*◌, ◌-◌, ◌/◌, ◌==◌, ◌>>=◌, ◌>>◌, ◌^◌, ◌||◌, ◌∷◌,
}
use nextcore_efi.Status.{Status, invalid_parameter, out_of_resources, compromised_data}
use nextcore_efi.Memory.Descriptor.{page_size, loader_code, loader_data}
use nextcore_efi.Memory.Coverage.{validate_entries}
use nextcore_efi.Memory.Calls.{Call, allocates, frees, zeroes, MemoryMap}

pub record ArmPages : Type 0 where
  pub original : ℕ
  pub count : ℕ
  pub base : ℕ
  pub bytes : ℕ
  pub memory_type : ℕ

-- `Option::is_some_and`
abbrev pub is_some_and : Option ℕ → (ℕ → Bool) → Bool
is_some_and none p = false
is_some_and (some v) p = p v

-- The tests of `allocate_kind` before it allocates, and the number of pages that it asks for.
unfoldable pub page_request : ℕ → Option ℕ → Result Status ℕ
page_request bytes fixed = do
  refuse
      (bytes == 0
        || not (bytes % 16384 == 0)
        || ltb (2 ^ 63 - 1) bytes
        || is_some_and fixed (λ b. b == 0 || not (b % 16384 == 0)))
      invalid_parameter
  ok_or (checked_add (bytes / page_size) (elim fixed [ none ↦ 3 | some b ↦ 0 ])) out_of_resources

-- `ArmPages::validate_map`; `descriptor_size` is the size of the descriptor type of the uefi crate.
unfoldable pub validate_map : ℕ → ArmPages → MemoryMap → Result Status (Unit {0})
validate_map descriptor_size pages map = do
  refuse
      (not (map.desc_version == 1)
        || ltb map.desc_size descriptor_size
        || map.map_size == 0
        || not (map.map_size % map.desc_size == 0)
        || ltb 4096 (map.map_size / map.desc_size))
      compromised_data
  validate_entries map.entries pages.base pages.bytes pages.memory_type

-- What `allocate_kind` checks of the pages at `start`. `x & !16383` is `x` less its remainder.
unfoldable pub place : ℕ → ℕ → Option ℕ → ℕ → ℕ → Result Status ArmPages
place bytes count fixed memory_type start = do
  sum ← ok_or (checked_add start 16383) out_of_resources
  let base = sum - sum % 16384
  limit ← ok_or (checked_add start (count * page_size)) compromised_data
  refuse
      (is_some_and fixed (λ expected. not (expected == base))
        || not (is_some_and (checked_add base bytes) (λ end. leb end limit)))
      compromised_data
  ok (record {
    original = start;
    count = count;
    base = base;
    bytes = bytes;
    memory_type = memory_type;
  })

-- The part of `allocate_kind` behind the allocation; `map` is what the firmware answers to the
-- request for its memory map.
unfoldable pub settle :
    ℕ
    → (bytes count : ℕ) → Option ℕ
    → (memory_type start : ℕ) → Result Status MemoryMap
    → Result Status ArmPages
settle descriptor_size bytes count fixed memory_type start map = do
  owner ← place bytes count fixed memory_type start
  entries ← map
  validate_map descriptor_size owner entries
  ok owner

-- The result and the calls of `allocate_kind`. `allocate` answers AllocatePages. A failure behind the
-- allocation drops the owner, which frees its pages.
unfoldable pub allocate_kind :
    ℕ
    → (ℕ → Option ℕ → ℕ → Result Status ℕ)
    → Result Status MemoryMap
    → ℕ
    → Option ℕ
    → ℕ
    → Result Status ArmPages × List Call
allocate_kind descriptor_size allocate map bytes fixed memory_type =
    elim (page_request bytes fixed) [
      | err e ↦ (err e, [])
      | ok count ↦ elim (allocate count fixed memory_type) [
        | err e ↦ (err e, [])
        | ok start ↦ elim (settle descriptor_size bytes count fixed memory_type start map) [
          | err e ↦ (err e, allocates start count ∷ frees start count ∷ [])
          | ok owner ↦ (ok owner, allocates start count ∷ zeroes owner.base bytes ∷ [])
        ]
      ]
    ]

-- `ArmPages::allocate` and `ArmPages::allocate_data`
unfoldable pub allocate :
    ℕ
    → (ℕ → Option ℕ → ℕ → Result Status ℕ)
    → Result Status MemoryMap
    → ℕ
    → Option ℕ
    → Result Status ArmPages × List Call
allocate descriptor_size firmware map bytes fixed =
    allocate_kind descriptor_size firmware map bytes fixed loader_code

unfoldable pub allocate_data :
    ℕ
    → (ℕ → Option ℕ → ℕ → Result Status ℕ)
    → Result Status MemoryMap
    → ℕ
    → Result Status ArmPages × List Call
allocate_data descriptor_size firmware map bytes =
    allocate_kind descriptor_size firmware map bytes none loader_data

-- `ArmPages::drop`
unfoldable pub drop_pages : ArmPages → List Call
drop_pages p = frees p.original p.count ∷ []
