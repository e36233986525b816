-- ===== src/Driver/Read.antt =====
-- `read_driver` of src/apfs_driver.rs: the driver is extracted twice and compared. The extraction of the
-- core library is a parameter, which reads through the bounded reader.
pub mod Laws
use nextcore_efi.Common.{
  Bool, List, Option, Result, [], checked_mul, false, map_err, none, not, ok, ok_or, refuse, some,
  true, ℕ, ◌&&◌, ◌==◌, ◌>>=◌, ◌>>◌, ◌∷◌,
}
use nextcore_efi.Common.Bytes.{same_bytes}
use nextcore_efi.Status.{Status, bad_buffer_size, unsupported, media_changed}
use nextcore_efi.Driver.Media.{
  Media, Geometry, media_geometry, read_exact_at, JumpstartError, extract_status,
}

-- `DiskIo::read_disk` of a number of bytes at an offset.
abbrev pub Disk : Type 0
Disk = ℕ → ℕ → Result Status (List ℕ)

-- `JumpstartDriver`, with extents of a type of the core library.
pub record Driver (E : Type 0) : Type 0 where
  pub bytes : List ℕ
  pub container_uuid : List ℕ
  pub block_size : ℕ
  pub container_block_count : ℕ
  pub jumpstart_block : ℕ
  pub extents : E

-- `extract_jumpstart` with its default limits, and the derived equality of extents.
pub record Jumpstart (E : Type 0) : Type 0 where
  pub extract : Disk → ℕ → Result JumpstartError (Driver E)
  pub same_extents : E → E → Bool

-- What the firmware answers to `read_driver`: the blocks of the GPT entry, if there is an entry, if the
-- number is one; the media at the start and at the end; and the disk during the two extractions.
pub record Container : Type 0 where
  pub info : Result Status (Option (Option ℕ))
  pub block : Result Status Media
  pub disk : Result Status (Unit {0})
  pub first : Disk
  pub second : Disk
  pub later : Media

abbrev pub same_geometry : Geometry → Geometry → Bool
same_geometry a b = a.media_id == b.media_id && a.block_size == b.block_size && a.bytes == b.bytes

abbrev pub is_whole : Option ℕ → ℕ → Bool
is_whole none bytes = false
is_whole (some product) bytes = product == bytes

module _ {E : Type 0} (jumpstart : Jumpstart E) where
  abbrev pub same_driver : Driver E → Driver E → Bool
  same_driver a b =
      same_bytes a.bytes b.bytes
      && same_bytes a.container_uuid b.container_uuid
      && a.block_size == b.block_size
      && a.container_block_count == b.container_block_count
      && a.jumpstart_block == b.jumpstart_block
      && jumpstart.same_extents a.extents b.extents

  -- One extraction through a reader of the partition.
  abbrev pub extract_from : Disk → Geometry → Result Status (Driver E)
  extract_from disk g =
      map_err extract_status (jumpstart.extract (read_exact_at disk g.bytes) g.bytes)

  -- `read_driver` once the media has a geometry.
  abbrev pub read_twice : Container → (blocks : ℕ) → Geometry → Result Status (Driver E)
  read_twice container blocks g = do
    refuse (not (is_whole (checked_mul blocks g.block_size) g.bytes)) bad_buffer_size
    container.disk
    driver ← extract_from container.first g
    repeated ← extract_from container.second g
    refuse (not (same_driver driver repeated)) media_changed
    later ← media_geometry container.later
    refuse (not (same_geometry later g)) media_changed
    ok driver

  unfoldable pub read_driver : Container → Result Status (Driver E)
  read_driver container = do
    info ← container.info
    entry ← ok_or info unsupported
    blocks ← ok_or entry bad_buffer_size
    media ← container.block
    g ← media_geometry media
    read_twice container blocks g
