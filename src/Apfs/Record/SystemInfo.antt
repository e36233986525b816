-- ===== src/Apfs/Record/SystemInfo.antt =====
-- EFI_FILE_SYSTEM_INFO as UEFI lays it out, and what `volume_info` reads of it.
use nextcore_efi.Apfs.Invalid.{Invalid}
use nextcore_efi.Common.Bytes.{units_bytes, length-units_bytes}
use nextcore_efi.Common.{
  >>=-eq-ok, All, IsU64, List, Result, [], ap, arith, drop, false, length, length-append, not, ok,
  ℕ, ◌*◌, ◌++◌, ◌+◌, ◌-◌, ◌<◌, ◌==◌, ◌>>=◌, ◌^◌, ◌∙◌, ◌∷◌, ◌≡◌, ◌≤◌,
}
use nextcore_efi.Escape.{escape}
use nextcore_efi.Escape.Injective.{IsPrintable, escape-IsPrintable}
use nextcore_efi.Apfs.Budget.{max_record}
use nextcore_efi.Apfs.Name.{name_units, name}
use nextcore_efi.Apfs.Name.Units.{IsName}
use nextcore_efi.Apfs.Record.{field, le64, sized, VolumeInfo, volume_fields, volume_info}
use nextcore_efi.Apfs.Record.Laws.{
  le_bytes, length-le_bytes, field-here, field-skip, field-skip8, drop-append_add, sized-append,
  name-units_bytes,
}

pub record SystemInfo : Type 0 where
  pub flag : ℕ
  pub padding : List ℕ
  pub size : ℕ
  pub free_space : ℕ
  pub block_size : ℕ
  pub units : List ℕ

unfoldable pub system_tail : SystemInfo → List ℕ
system_tail s =
    le_bytes 1 s.flag
    ++ (s.padding
        ++ (le_bytes 8 s.size
            ++ (le_bytes 8 s.free_space
                ++ (le_bytes 4 s.block_size ++ units_bytes (s.units ++ (0 ∷ []))))))

abbrev pub system_bytes : SystemInfo → ℕ
system_bytes s = 38 + 2 * length s.units

pub record IsSystemInfo (s : SystemInfo) : Type 0 where
  pub flag_bool : s.flag ≤ 1
  pub seven : length s.padding ≡ 7
  pub size_u64 : IsU64 s.size
  pub size_pos : 0 < s.size
  pub free_le : s.free_space ≤ s.size
  pub block_u32 : s.block_size < 2 ^ 32
  pub block_pos : 0 < s.block_size
  pub named : IsName false s.units

length-system_tail :
    (s : SystemInfo) → length s.padding ≡ 7 → system_bytes s ≡ 8 + length (system_tail s)
unfolding system_tail
length-system_tail s p =
    let units = units_bytes (s.units ++ (0 ∷ [])) in
    let block = le_bytes 4 s.block_size ++ units in
    let free = le_bytes 8 s.free_space ++ block in
    let size = le_bytes 8 s.size ++ free in
    omega (
      arith,
      length-append (le_bytes 1 s.flag) (s.padding ++ size),
      length-append s.padding size,
      length-append (le_bytes 8 s.size) free,
      length-append (le_bytes 8 s.free_space) block,
      length-append (le_bytes 4 s.block_size) units,
      length-units_bytes (s.units ++ (0 ∷ [])),
      length-append s.units (0 ∷ []),
      length-le_bytes 1 s.flag,
      length-le_bytes 8 s.size,
      length-le_bytes 8 s.free_space,
      length-le_bytes 4 s.block_size,
    )

module _ (s : SystemInfo) (total : ℕ) (seven : length s.padding ≡ 7) where
  abbrev body : List ℕ
  body = le_bytes 8 total ++ system_tail s

  abbrev behind_size : List ℕ
  behind_size =
      le_bytes 8 s.free_space ++ (le_bytes 4 s.block_size ++ units_bytes (s.units ++ (0 ∷ [])))

  body-flag : s.flag ≤ 1 → field 1 body 8 ≡ s.flag
  unfolding system_tail
  body-flag h = field-skip8 1 total _ 8 0 (omega arith) ∙ field-here 1 _ s.flag (omega arith)

  -- From the volume size on, past the flag and the padding.
  body-skip :
      (count offset : ℕ)
      → 16 ≤ offset
      → field count body offset ≡ field count (le_bytes 8 s.size ++ behind_size) (offset - 16)
  unfolding system_tail
  body-skip count offset h =
      field-skip8 count total _ offset (offset - 8) (omega arith)
      ∙ field-skip count (le_bytes 1 s.flag) _ (offset - 8) (offset - 9)
          (omega (arith, length-le_bytes 1 s.flag))
      ∙ field-skip count s.padding _ (offset - 9) (offset - 16) (omega arith)

  body-size : IsU64 s.size → le64 body 16 ≡ s.size
  body-size h = body-skip 8 16 (omega arith) ∙ field-here 8 behind_size s.size (omega arith)

  body-free : IsU64 s.free_space → le64 body 24 ≡ s.free_space
  body-free h =
      body-skip 8 24 (omega arith)
      ∙ field-skip8 8 s.size behind_size 8 0 (omega arith)
      ∙ field-here 8 _ s.free_space (omega arith)

  body-block : s.block_size < 2 ^ 32 → field 4 body 32 ≡ s.block_size
  body-block h =
      body-skip 4 32 (omega arith)
      ∙ field-skip8 4 s.size behind_size 16 8 (omega arith)
      ∙ field-skip8 4 s.free_space _ 8 0 (omega arith)
      ∙ field-here 4 _ s.block_size (omega arith)

  body-name : drop 36 body ≡ units_bytes (s.units ++ (0 ∷ []))
  unfolding system_tail
  body-name =
      drop-append_add (le_bytes 8 total) _ 36 28 (omega (arith, length-le_bytes 8 total))
      ∙ drop-append_add (le_bytes 1 s.flag) _ 28 27 (omega (arith, length-le_bytes 1 s.flag))
      ∙ drop-append_add s.padding _ 27 20 (omega arith)
      ∙ drop-append_add (le_bytes 8 s.size) _ 20 12 (omega (arith, length-le_bytes 8 s.size))
      ∙ drop-append_add (le_bytes 8 s.free_space) _ 12 4
          (omega (arith, length-le_bytes 8 s.free_space))
      ∙ drop-append_add (le_bytes 4 s.block_size) _ 4 0
          (omega (arith, length-le_bytes 4 s.block_size))

-- The volume that a record stands for.
abbrev pub shown : SystemInfo → VolumeInfo
shown s = record {
  label = escape s.units;
  label_utf16 = s.units;
  read_only = not (s.flag == 0);
  size = s.size;
  free_space = s.free_space;
  block_size = s.block_size;
}

-- The guards of `volume_info` once the record is cut and its fields are read.
volume_of_fields :
    (bytes cut : List ℕ) (s : SystemInfo)
    → sized bytes 36 ≡ ok cut
    → field 1 cut 8 ≡ s.flag
    → le64 cut 16 ≡ s.size
    → le64 cut 24 ≡ s.free_space
    → field 4 cut 32 ≡ s.block_size
    → name_units (drop 36 cut) false ≡ ok s.units
    → IsSystemInfo s
    → volume_info bytes ≡ ok (shown s)
unfolding volume_info volume_fields name
volume_of_fields bytes cut s c f p a b n v = ground arith

-- `volume_info` reads back a volume record of at most 4096 bytes, whatever stands behind it: its
-- label in both forms, the read-only flag and the sizes.
pub volume_info-system_info :
    (s : SystemInfo) (junk : List ℕ)
    → IsSystemInfo s
    → system_bytes s + length junk ≤ max_record
    → volume_info ((le_bytes 8 (system_bytes s) ++ system_tail s) ++ junk) ≡ ok (shown s)
volume_info-system_info s junk v h =
    let total = system_bytes s in
    let p = v.seven in
    let units : name_units (drop 36 (body s total p)) false ≡ ok s.units =
      ap (λ b. name_units b false) (body-name s total p) ∙ name-units_bytes false s.units v.named in
    volume_of_fields ((le_bytes 8 total ++ system_tail s) ++ junk) (body s total p) s
      (sized-append 36 total (system_tail s) junk (length-system_tail s p) (omega arith) h)
      (body-flag s total p v.flag_bool) (body-size s total p v.size_u64)
      (body-free s total p (omega arith)) (body-block s total p v.block_u32) units v

-- What `volume_info` promises of any volume that it accepts: a volume of some size with no more free
-- space than that, blocks of some size, and a label that is the printable form of its units.
pub record IsVolume (i : VolumeInfo) : Type 0 where
  pub size_pos : 0 < i.size
  pub free_le : i.free_space ≤ i.size
  pub block_pos : 0 < i.block_size
  pub label_eq : i.label ≡ escape i.label_utf16
  pub label_printable : All IsPrintable i.label

volume_fields_ok :
    (flag size free_space block_size : ℕ) (units : Result Invalid (List ℕ)) (i : VolumeInfo)
    → volume_fields flag size free_space block_size (units >>= λ us. ok (escape us)) units ≡ ok i
    → (0 < i.size) × (i.free_space ≤ i.size) × (0 < i.block_size) × (i.label ≡ escape i.label_utf16)
unfolding volume_fields
volume_fields_ok flag size free_space block_size units i e = ground arith

volume_info_ok :
    (bytes : List ℕ) (i : VolumeInfo)
    → volume_info bytes ≡ ok i
    → (0 < i.size) × (i.free_space ≤ i.size) × (0 < i.block_size) × (i.label ≡ escape i.label_utf16)
unfolding volume_info name
volume_info_ok bytes i e =
    let (cut, _, r) = >>=-eq-ok (sized bytes 36) _ e in
    volume_fields_ok (field 1 cut 8) (le64 cut 16) (le64 cut 24) (field 4 cut 32)
      (name_units (drop 36 cut) false) i r

-- Every volume record that `volume_info` accepts has these properties, whatever the bytes.
pub volume_info-IsVolume : (bytes : List ℕ) (i : VolumeInfo) → volume_info bytes ≡ ok i → IsVolume i
volume_info-IsVolume bytes i e =
    let (s, f, b, l) = volume_info_ok bytes i e in
    record {
      size_pos = s;
      free_le = f;
      block_pos = b;
      label_eq = l;
      label_printable = rw l (escape-IsPrintable i.label_utf16);
    }
