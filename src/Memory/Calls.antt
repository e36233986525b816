-- ===== src/Memory/Calls.antt =====
-- The firmware calls that a page owner makes, and what firmware may answer.
use nextcore_efi.Common.{List, [], if◌then◌else◌, ℕ, ◌+◌, ◌&&◌, ◌==◌, ◌∷◌}
use nextcore_efi.Memory.Descriptor.{Descriptor}

-- AllocatePages that succeeded (first page, count), FreePages (first page, count), and the fill with
-- zeros (first byte, count).
pub data Call : Type 0 where
  allocates frees zeroes : ℕ → ℕ → Call

-- A block of pages: its first page, and how many.
pub record Block : Type 0 where
  pub address : ℕ
  pub pages : ℕ

-- How often a log allocates and frees a block: the pages from an address, and as many.
unfoldable pub allocated : Block → List Call → ℕ
allocated q [] = 0
allocated q (allocates p n ∷ log) =
    (if q.address == p && q.pages == n then 1 else 0) + allocated q log
allocated q (_ ∷ log) = allocated q log

unfoldable pub freed : Block → List Call → ℕ
freed q [] = 0
freed q (frees p n ∷ log) = (if q.address == p && q.pages == n then 1 else 0) + freed q log
freed q (_ ∷ log) = freed q log

-- The metadata of a memory map, with its entries.
pub record MemoryMap : Type 0 where
  pub desc_version : ℕ
  pub desc_size : ℕ
  pub map_size : ℕ
  pub entries : List Descriptor
