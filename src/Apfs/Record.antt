-- ===== src/Apfs/Record.antt =====
-- `sized`, `entry` and `volume_info` of src/apfs_observation.rs: the EFI_FILE_INFO and
-- EFI_FILE_SYSTEM_INFO records. The guards of `sized` put every slice below in range.
pub mod Laws
pub mod FileInfo
pub mod SystemInfo
mod Runs
use Prim.Native.Nat.{bit_and}
use nextcore_efi.Common.{
  Bool, List, Result, [], drop, false, length, ltb, not, ok, refuse, take, ℕ, ◌&&◌, ◌+◌, ◌-◌, ◌==◌,
  ◌>>=◌, ◌>>◌, ◌^◌, ◌||◌, ◌∷◌,
}
use nextcore_efi.Common.Bytes.{le_value}
use nextcore_efi.Apfs.Invalid.{Invalid}
use nextcore_efi.Apfs.Budget.{max_record}
use nextcore_efi.Apfs.Name.{name_units, name, is_empty}

-- `bytes[offset..offset + count]` as a little-endian number.
abbrev pub field : ℕ → List ℕ → ℕ → ℕ
field count bytes offset = le_value (take count (drop offset bytes))

abbrev pub le64 : List ℕ → ℕ → ℕ
le64 bytes offset = field 8 bytes offset

unfoldable pub sized : List ℕ → ℕ → Result Invalid (List ℕ)
sized bytes name_offset = do
  refuse (ltb (length bytes) (name_offset + 2) || ltb max_record (length bytes)) Invalid.size
  let size = le64 bytes 0
  refuse (ltb size (name_offset + 2) || ltb (length bytes) size) Invalid.size
  ok (take size bytes)

pub record Entry : Type 0 where
  pub text : List ℕ
  pub file_size : ℕ
  pub physical_size : ℕ
  pub attributes : ℕ
  pub directory : Bool
  pub dot : Bool

-- `attributes & !0x37` and `attributes & 0x10` of a `u64`.
abbrev pub foreign_bits : ℕ → ℕ
foreign_bits a = bit_and a (2 ^ 64 - 1 - 0x37)

abbrev pub is_directory : ℕ → Bool
is_directory a = not (bit_and a 0x10 == 0)

-- `matches!(name, "." | "..")`
abbrev pub is_dot : List ℕ → Bool
is_dot (c ∷ []) = c == 0x2e
is_dot (c ∷ d ∷ []) = c == 0x2e && d == 0x2e
is_dot text = false

unfoldable pub entry : List ℕ → Bool → Result Invalid Entry
entry bytes root = do
  body ← sized bytes 80
  let attributes = le64 body 72
  refuse (not (foreign_bits attributes == 0) || (root && not (is_directory attributes)))
      Invalid.attributes
  text ← name (drop 80 body) (not root)
  refuse (root && not (is_empty text)) Invalid.name
  ok (record {
    text = text;
    file_size = le64 body 8;
    physical_size = le64 body 16;
    attributes = attributes;
    directory = is_directory attributes;
    dot = is_dot text;
  })

pub record VolumeInfo : Type 0 where
  pub label : List ℕ
  pub label_utf16 : List ℕ
  pub read_only : Bool
  pub size : ℕ
  pub free_space : ℕ
  pub block_size : ℕ

-- The body of `volume_info` from its geometry test on, over what it has read from the record.
unfoldable pub volume_fields :
    (flag size free_space block_size : ℕ)
    → Result Invalid (List ℕ)
    → Result Invalid (List ℕ)
    → Result Invalid VolumeInfo
volume_fields flag size free_space block_size named units = do
  refuse (ltb 1 flag || ltb size free_space || size == 0 || block_size == 0) Invalid.geometry
  label ← named
  label_utf16 ← units
  ok (record {
    label = label;
    label_utf16 = label_utf16;
    read_only = not (flag == 0);
    size = size;
    free_space = free_space;
    block_size = block_size;
  })

unfoldable pub volume_info : List ℕ → Result Invalid VolumeInfo
volume_info bytes = do
  body ← sized bytes 36
  volume_fields (field 1 body 8) (le64 body 16) (le64 body 24) (field 4 body 32)
      (name (drop 36 body) false) (name_units (drop 36 body) false)
