-- ===== src/Driver/Media.antt =====
-- The partition of src/apfs_driver.rs: which one is taken, its geometry, and reads within it.
pub mod Laws
use nextcore_efi.Common.{
  Bool, List, Option, Result, [], any, checked_add, checked_mul, err, false, length, ltb, none, not,
  ok, ok_or, refuse, some, true, ℕ, ◌==◌, ◌>>=◌, ◌>>◌, ◌^◌, ◌||◌, ◌∷◌,
}
use nextcore_efi.Status.{
  Status, bad_buffer_size, no_mapping, not_found, no_media, unsupported, end_of_file,
  volume_corrupted,
}

abbrev pub max_partition_handles : ℕ
max_partition_handles = 256

-- A handle, and what `read_protocol` answers of its partition: whether its GPT entry has the type of an
-- APFS container.
pub record Partition : Type 0 where
  pub handle : ℕ
  pub is_container : Result Status Bool

-- One round of the loop of `candidate`, by the partition's answer; `found` is the handle so far.
abbrev pub take_partition : ℕ → Option ℕ → Result Status Bool → Result Status (Option ℕ)
take_partition handle found (err e) = err e
take_partition handle found (ok false) = ok found
take_partition handle none (ok true) = ok (some handle)
take_partition handle (some earlier) (ok true) = err no_mapping

-- The loop of `candidate`.
unfoldable pub find_container : List Partition → Option ℕ → Result Status (Option ℕ)
find_container [] found = ok found
find_container (p ∷ ps) found =
    take_partition p.handle found p.is_container >>= λ now. find_container ps now

unfoldable pub candidate : Result Status (List Partition) → Result Status ℕ
candidate handles = do
  ps ← handles
  refuse (ltb max_partition_handles (length ps)) bad_buffer_size
  found ← find_container ps none
  ok_or found not_found

-- The media that BlockIO describes.
pub record Media : Type 0 where
  pub media_id : ℕ
  pub is_media_present : Bool
  pub is_logical_partition : Bool
  pub block_size : ℕ
  pub last_block : ℕ

abbrev pub powers : List ℕ
powers =
    0 ∷ 1 ∷ 2 ∷ 3 ∷ 4 ∷ 5 ∷ 6 ∷ 7 ∷ 8 ∷ 9 ∷ 10 ∷ 11 ∷ 12 ∷ 13 ∷ 14 ∷ 15 ∷ 16 ∷ 17 ∷ 18 ∷ 19 ∷ 20
    ∷ 21 ∷ 22 ∷ 23 ∷ 24 ∷ 25 ∷ 26 ∷ 27 ∷ 28 ∷ 29 ∷ 30 ∷ 31 ∷ []

-- `u32::is_power_of_two`
abbrev pub is_power_of_two : ℕ → Bool
is_power_of_two n = any (λ k. n == 2 ^ k) powers

pub record Geometry : Type 0 where
  pub media_id : ℕ
  pub block_size : ℕ
  pub bytes : ℕ

-- The length of the media: `last_block + 1` blocks, unless that is no u64.
abbrev pub media_length : Media → Option ℕ
media_length media = elim (checked_add media.last_block 1) [
  | none ↦ none
  | some blocks ↦ checked_mul blocks media.block_size
]

unfoldable pub media_geometry : Media → Result Status Geometry
media_geometry media = do
  refuse (not media.is_media_present) no_media
  refuse (not media.is_logical_partition) unsupported
  refuse
      (ltb media.block_size 512
        || ltb 65536 media.block_size
        || not (is_power_of_two media.block_size))
      unsupported
  size ← ok_or (media_length media) bad_buffer_size
  ok (record { media_id = media.media_id; block_size = media.block_size; bytes = size })

-- `PartitionReader::read_exact_at` of `n` bytes; `read_disk` is that of DiskIo.
unfoldable pub read_exact_at :
    (ℕ → ℕ → Result Status (List ℕ)) → (partition_bytes offset n : ℕ) → Result Status (List ℕ)
read_exact_at read_disk partition_bytes offset n = do
  end ← ok_or (checked_add offset n) bad_buffer_size
  refuse (ltb partition_bytes end) end_of_file
  read_disk offset n

-- `JumpstartError` of the core library: an error of the reader, or one of the format.
pub data JumpstartError : Type 0 where
  io : Status → JumpstartError
  malformed : JumpstartError

abbrev pub extract_status : JumpstartError → Status
extract_status (io status) = status
extract_status malformed = volume_corrupted
