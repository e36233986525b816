-- ===== src/Apfs/Record/Laws.antt =====
-- Fields and names in records laid out as UEFI says, for src/apfs_observation.rs.
use native.Mathlib.Nat.{pow-suc}
use mathlib.Core.List.{append_assoc}
use nextcore_efi.Common.Bytes.{le_value, units_bytes, le16_units-units_bytes}
use nextcore_efi.Common.{
  Bool, List, [], ap, arith, drop, length, length-append, ok, refl, suc, sym, take, take-append,
  zero, ℕ, ◌%◌, ◌++◌, ◌+◌, ◌/◌, ◌<◌, ◌^◌, ◌∙◌, ◌∷◌, ◌≡◌, ◌≤◌,
}
use nextcore_efi.Apfs.Budget.{max_record}
use nextcore_efi.Apfs.Name.{name_units}
use nextcore_efi.Apfs.Name.Units.{IsName}
use nextcore_efi.Apfs.Name.Laws.{name_units_iff}
use nextcore_efi.Apfs.Record.{field, le64, sized}

-- `count` bytes of a number, low byte first.
unfoldable pub le_bytes : ℕ → ℕ → List ℕ
le_bytes zero v = []
le_bytes (suc count) v = v % 256 ∷ le_bytes count (v / 256)

pub length-le_bytes : (count v : ℕ) → length (le_bytes count v) ≡ count
unfolding le_bytes
length-le_bytes zero v = refl
length-le_bytes (suc count) v = ap suc (length-le_bytes count (v / 256))

pub le_value-le_bytes : (count v : ℕ) → v < 256 ^ count → le_value (le_bytes count v) ≡ v
unfolding le_value le_bytes
le_value-le_bytes zero v h = omega arith
le_value-le_bytes (suc count) v h =
    omega (arith, le_value-le_bytes count (v / 256) (omega (arith, pow-suc 256 count)))

pub field-here :
    (count : ℕ) (post : List ℕ) (v : ℕ)
    → v < 256 ^ count
    → field count (le_bytes count v ++ post) 0 ≡ v
field-here count post v h =
    ap (λ n. le_value (take n (le_bytes count v ++ post))) (sym (length-le_bytes count v))
    ∙ ap le_value (take-append (le_bytes count v) post)
    ∙ le_value-le_bytes count v h

pub drop-append_add {ℓ} :
    {A : Type ℓ} (pre rest : List A) (n k : ℕ)
    → n ≡ length pre + k
    → drop n (pre ++ rest) ≡ drop k rest
drop-append_add [] rest n k e = ap (λ m. drop m rest) (omega arith)
drop-append_add (x ∷ pre) rest zero k e = absurd (omega arith)
drop-append_add (x ∷ pre) rest (suc n) k e = drop-append_add pre rest n k (omega arith)

pub field-skip :
    (count : ℕ) (pre rest : List ℕ) (offset k : ℕ)
    → offset ≡ length pre + k
    → field count (pre ++ rest) offset ≡ field count rest k
field-skip count pre rest offset k e =
    ap (λ d. le_value (take count d)) (drop-append_add pre rest offset k e)

-- `field-skip` over a little-endian number of eight bytes.
pub field-skip8 :
    (count v : ℕ) (rest : List ℕ) (offset k : ℕ)
    → offset ≡ 8 + k
    → field count (le_bytes 8 v ++ rest) offset ≡ field count rest k
field-skip8 count v rest offset k e =
    field-skip count (le_bytes 8 v) rest offset k (omega (arith, length-le_bytes 8 v))

-- `sized` cuts a record to the size that it states.
pub sized-append :
    (name_offset size : ℕ) (rest junk : List ℕ)
    → size ≡ 8 + length rest
    → name_offset + 2 ≤ size
    → size + length junk ≤ max_record
    → sized ((le_bytes 8 size ++ rest) ++ junk) name_offset ≡ ok (le_bytes 8 size ++ rest)
unfolding sized
sized-append name_offset size rest junk e lo hi =
    let record_bytes : List ℕ = le_bytes 8 size ++ rest in
    let len : length record_bytes ≡ size =
      omega (arith, length-append (le_bytes 8 size) rest, length-le_bytes 8 size) in
    let stated : le64 (record_bytes ++ junk) 0 ≡ size =
      ap (λ b. le64 b 0) (append_assoc (le_bytes 8 size) rest junk)
      ∙ field-here 8 (rest ++ junk) size (omega arith) in
    let cut : take size (record_bytes ++ junk) ≡ record_bytes =
      ap (λ n. take n (record_bytes ++ junk)) (sym len) ∙ take-append record_bytes junk in
    ground (arith, len, stated, cut, length-append record_bytes junk)

-- The units of a name behind a record's fixed part are read back.
pub name-units_bytes :
    (component : Bool) (us : List ℕ)
    → IsName component us
    → name_units (units_bytes (us ++ (0 ∷ []))) component ≡ ok us
name-units_bytes component us v =
    (name_units_iff (units_bytes (us ++ (0 ∷ []))) component us).1
      (v, ([], le16_units-units_bytes (us ++ (0 ∷ []))))
