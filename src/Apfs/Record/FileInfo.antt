-- ===== src/Apfs/Record/FileInfo.antt =====
-- EFI_FILE_INFO as UEFI lays it out, and what `entry` reads of it.
use nextcore_efi.Common.Bytes.{units_bytes, length-units_bytes}
use Prim.Native.Nat.{bit_and}
use nextcore_efi.Common.{
  ◌==◌, Bool, IsU64, List, [], ap, arith, drop, false, length, length-append, not, ok, refl, ℕ,
  ◌&&◌, ◌*◌, ◌++◌, ◌+◌, ◌∙◌, ◌∷◌, ◌≡◌, ◌≤◌,
}
use nextcore_efi.Escape.{escape, escape_unit}
use nextcore_efi.Apfs.Budget.{max_record}
use nextcore_efi.Apfs.Name.{name, is_empty}
use nextcore_efi.Apfs.Name.Units.{IsName}
use nextcore_efi.Apfs.Record.{le64, sized, Entry, foreign_bits, is_directory, is_dot, entry}
use nextcore_efi.Apfs.Record.Laws.{
  le_bytes, length-le_bytes, field-here, field-skip, field-skip8, drop-append_add, sized-append,
  name-units_bytes,
}

pub record FileInfo : Type 0 where
  pub file_size : ℕ
  pub physical_size : ℕ
  pub times : List ℕ
  pub attributes : ℕ
  pub units : List ℕ

-- The part behind the 64-bit size.
unfoldable pub file_tail : FileInfo → List ℕ
file_tail i =
    le_bytes 8 i.file_size
    ++ (le_bytes 8 i.physical_size
        ++ (i.times ++ (le_bytes 8 i.attributes ++ units_bytes (i.units ++ (0 ∷ [])))))

abbrev pub file_bytes : FileInfo → ℕ
file_bytes i = 82 + 2 * length i.units

pub record IsFileInfo (root : Bool) (i : FileInfo) : Type 0 where
  pub file_size_u64 : IsU64 i.file_size
  pub physical_size_u64 : IsU64 i.physical_size
  pub attributes_u64 : IsU64 i.attributes
  pub three_times : length i.times ≡ 48
  pub known_bits : foreign_bits i.attributes ≡ 0
  pub root_directory : (root && not (is_directory i.attributes)) ≡ false
  pub root_unnamed : (root && not (is_empty i.units)) ≡ false
  pub named : IsName (not root) i.units

length-file_tail : (i : FileInfo) → length i.times ≡ 48 → file_bytes i ≡ 8 + length (file_tail i)
unfolding file_tail
length-file_tail i t = omega (
  arith,
  length-append (le_bytes 8 i.file_size) (
      le_bytes 8 i.physical_size
      ++ (i.times ++ (le_bytes 8 i.attributes ++ units_bytes (i.units ++ (0 ∷ []))))),
  length-append (le_bytes 8 i.physical_size)
      (i.times ++ (le_bytes 8 i.attributes ++ units_bytes (i.units ++ (0 ∷ [])))),
  length-append i.times (le_bytes 8 i.attributes ++ units_bytes (i.units ++ (0 ∷ []))),
  length-append (le_bytes 8 i.attributes) (units_bytes (i.units ++ (0 ∷ []))),
  length-units_bytes (i.units ++ (0 ∷ [])),
  length-append i.units (0 ∷ []),
  length-le_bytes 8 i.file_size,
  length-le_bytes 8 i.physical_size,
  length-le_bytes 8 i.attributes,
)

module _ (i : FileInfo) (size : ℕ) where
  abbrev body : List ℕ
  body = le_bytes 8 size ++ file_tail i

  body-file_size : IsU64 i.file_size → le64 body 8 ≡ i.file_size
  unfolding file_tail
  body-file_size h =
      field-skip8 8 size _ 8 0 (omega arith) ∙ field-here 8 _ i.file_size (omega arith)

  body-physical_size : IsU64 i.physical_size → le64 body 16 ≡ i.physical_size
  unfolding file_tail
  body-physical_size h =
      field-skip8 8 size _ 16 8 (omega arith)
      ∙ field-skip8 8 i.file_size _ 8 0 (omega arith)
      ∙ field-here 8 _ i.physical_size (omega arith)

  body-attributes : length i.times ≡ 48 → IsU64 i.attributes → le64 body 72 ≡ i.attributes
  unfolding file_tail
  body-attributes t h =
      field-skip8 8 size _ 72 64 (omega arith)
      ∙ field-skip8 8 i.file_size _ 64 56 (omega arith)
      ∙ field-skip8 8 i.physical_size _ 56 48 (omega arith)
      ∙ field-skip 8 i.times _ 48 0 (omega arith)
      ∙ field-here 8 _ i.attributes (omega arith)

  body-name : length i.times ≡ 48 → drop 80 body ≡ units_bytes (i.units ++ (0 ∷ []))
  unfolding file_tail
  body-name t =
      drop-append_add (le_bytes 8 size) _ 80 72 (omega (arith, length-le_bytes 8 size))
      ∙ drop-append_add (le_bytes 8 i.file_size) _ 72 64
          (omega (arith, length-le_bytes 8 i.file_size))
      ∙ drop-append_add (le_bytes 8 i.physical_size) _ 64 56
          (omega (arith, length-le_bytes 8 i.physical_size))
      ∙ drop-append_add i.times _ 56 8 (omega arith)
      ∙ drop-append_add (le_bytes 8 i.attributes) _ 8 0
          (omega (arith, length-le_bytes 8 i.attributes))

-- The directory entry that a record stands for.
abbrev pub shown : FileInfo → Entry
shown i = record {
  text = escape i.units;
  file_size = i.file_size;
  physical_size = i.physical_size;
  attributes = i.attributes;
  directory = not (bit_and i.attributes 0x10 == 0);
  dot = is_dot (escape i.units);
}

-- The guards of `entry` once the record is cut and its fields are read.
entry_of_fields :
    (bytes cut text : List ℕ) (root : Bool) (fs ps at : ℕ)
    → sized bytes 80 ≡ ok cut
    → le64 cut 8 ≡ fs
    → le64 cut 16 ≡ ps
    → le64 cut 72 ≡ at
    → name (drop 80 cut) (not root) ≡ ok text
    → foreign_bits at ≡ 0
    → (root && not (is_directory at)) ≡ false
    → (root && not (is_empty text)) ≡ false
    → entry bytes root
      ≡ ok (record {
        text = text;
        file_size = fs;
        physical_size = ps;
        attributes = at;
        directory = is_directory at;
        dot = is_dot text;
      })
unfolding entry
entry_of_fields bytes cut text root fs ps at c f p a n k d u = ground arith

is_empty-escape : (us : List ℕ) → is_empty (escape us) ≡ is_empty us
unfolding escape escape_unit
is_empty-escape [] = refl
is_empty-escape (u ∷ us) = ground arith

-- `entry` reads back a file record of at most 4096 bytes, whatever stands behind it: its sizes and
-- attributes, its name in escaped form, and whether it is a directory or a dot entry.
pub entry-file_info :
    (root : Bool) (i : FileInfo) (junk : List ℕ)
    → IsFileInfo root i
    → file_bytes i + length junk ≤ max_record
    → entry ((le_bytes 8 (file_bytes i) ++ file_tail i) ++ junk) root ≡ ok (shown i)
entry-file_info root i junk v h =
    let size = file_bytes i in
    let t = v.three_times in
    let text : name (drop 80 (body i size)) (not root) ≡ ok (escape i.units) =
      ap (λ b. name b (not root)) (body-name i size t)
      ∙ unfold name in rw (name-units_bytes (not root) i.units v.named) in
    entry_of_fields ((le_bytes 8 size ++ file_tail i) ++ junk) (body i size) (escape i.units) root
      i.file_size i.physical_size i.attributes
      (sized-append 80 size (file_tail i) junk (length-file_tail i t) (omega arith) h)
      (body-file_size i size v.file_size_u64) (body-physical_size i size v.physical_size_u64)
      (body-attributes i size t v.attributes_u64) text v.known_bits v.root_directory
      (rw (is_empty-escape i.units) v.root_unnamed)
