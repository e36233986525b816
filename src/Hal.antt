-- ===== src/Hal.antt =====
-- src/hal_tables.rs: the guarded copy of ACPI tables, and the walk from the root pointer (RSDP) over
-- the tables. Reports and the scan of the PCI bus are left out.
pub mod Laws
pub mod Tables
pub mod Complete
pub mod Roots
pub mod Walk
mod Runs
use nextcore_efi.Common.Bytes.{le_value}
use nextcore_efi.Common.{
  Bool, List, Option, Result, [], any, checked_add, checked_mul, drop, err, false, get_or,
  if◌then◌else◌, leb, length, ltb, max, none, not, ok, ok_or, refuse, some, suc, take, true, zero,
  ℕ, ◌%◌, ◌&&◌, ◌*◌, ◌+◌, ◌-◌, ◌/◌, ◌==◌, ◌>>=◌, ◌>>◌, ◌||◌, ◌∷◌,
}
use nextcore_efi.Status.{
  Status, not_found, bad_buffer_size, invalid_parameter, access_denied, load_error, crc_error,
  compromised_data,
}
use nextcore_efi.Memory.Descriptor.{Descriptor, page_size, acpi_reclaim, acpi_non_volatile}

abbrev pub max_tables : ℕ
max_tables = 32

abbrev pub max_table_bytes : ℕ
max_table_bytes = 16 * 1024

abbrev pub max_xsdt_bytes : ℕ
max_xsdt_bytes = 4096

-- Which table an entry of the EFI configuration table names by its GUID.
pub data Vendor : Type 0 where
  acpi2 acpi1 other_vendor : Vendor

-- The firmware: its memory map, the byte at each physical address, and its configuration table, where
-- `none` is a missing system table.
pub record Machine : Type 0 where
  pub map : Result Status (List Descriptor)
  pub memory : ℕ → ℕ
  pub config : Option (List (Vendor × ℕ))

abbrev pub bytes_at : (ℕ → ℕ) → ℕ → ℕ → List ℕ
bytes_at memory start zero = []
bytes_at memory start (suc n) = memory start ∷ bytes_at memory (start + 1) n

-- The test of `phys_copy` on a descriptor of the map.
abbrev pub acpi_covers : ℕ → ℕ → Descriptor → Bool
acpi_covers phys end d =
    (d.ty == acpi_reclaim || d.ty == acpi_non_volatile)
    && (elim (checked_mul d.page_count page_size) [
      | none ↦ false
      | some size ↦ elim (checked_add d.phys_start size) [
        | none ↦ false
        | some limit ↦ leb d.phys_start phys && leb end limit
      ]
    ])

unfoldable pub phys_copy : Machine → (phys len : ℕ) → Result Status (List ℕ)
phys_copy machine phys len = do
  refuse (phys == 0) not_found
  refuse (len == 0 || ltb (max max_table_bytes max_xsdt_bytes) len) bad_buffer_size
  end ← ok_or (checked_add phys len) invalid_parameter
  refuse (ltb 0x100000000 end) invalid_parameter
  ds ← machine.map
  refuse (not (any (acpi_covers phys end) ds)) access_denied
  ok (bytes_at machine.memory phys len)

-- `bytes.iter().fold(0u8, |a, &b| a.wrapping_add(b))`
abbrev pub checksum : ℕ → List ℕ → ℕ
checksum a [] = a
checksum a (b ∷ bs) = checksum ((a + b) % 256) bs

abbrev pub checksum_zero : List ℕ → Bool
checksum_zero bytes = checksum 0 bytes == 0

-- A little-endian field of `n` bytes.
abbrev pub le_field : List ℕ → (offset n : ℕ) → ℕ
le_field bytes offset n = le_value (take n (drop offset bytes))

abbrev pub starts : List ℕ → List ℕ → Bool
starts [] bytes = true
starts (s ∷ ss) [] = false
starts (s ∷ ss) (b ∷ bs) = s == b && starts ss bs

abbrev pub rsd_ptr : List ℕ
rsd_ptr = 0x52 ∷ 0x53 ∷ 0x44 ∷ 0x20 ∷ 0x50 ∷ 0x54 ∷ 0x52 ∷ 0x20 ∷ []

-- The loop of `find_rsdp` over the configuration table.
abbrev pub vendors : List (Vendor × ℕ) → (two one : ℕ) → ℕ × ℕ
vendors [] two one = (two, one)
vendors ((acpi2, address) ∷ es) two one = vendors es address one
vendors ((acpi1, address) ∷ es) two one = vendors es two address
vendors ((other_vendor, address) ∷ es) two one = vendors es two one

pub record Rsdp : Type 0 where
  pub address : ℕ
  pub bytes : ℕ
  pub revision : ℕ
  pub rsdt : ℕ
  pub xsdt : ℕ

-- `find_rsdp` on a root pointer of revision 2 and later.
abbrev pub extended : Machine → (address revision rsdt : ℕ) → Result Status Rsdp
extended machine address revision rsdt = do
  ext ← phys_copy machine address 36
  let len = le_field ext 20 4
  refuse (ltb len 36 || ltb 64 len) load_error
  full ← phys_copy machine address len
  refuse (not (checksum_zero full)) load_error
  ok (record {
    address = address;
    bytes = len;
    revision = revision;
    rsdt = rsdt;
    xsdt = le_field full 24 8;
  })

-- `find_rsdp` behind the first checksum.
abbrev pub by_revision : Machine → (address revision rsdt : ℕ) → Result Status Rsdp
by_revision machine address revision rsdt =
    if ltb revision 2
    then ok (record { address = address; bytes = 20; revision = revision; rsdt = rsdt; xsdt = 0 })
    else extended machine address revision rsdt

-- `find_rsdp` at the address that the configuration table names.
unfoldable pub read_rsdp : Machine → ℕ → Result Status Rsdp
read_rsdp machine address = do
  head ← phys_copy machine address 20
  refuse (not (starts rsd_ptr head)) load_error
  refuse (not (checksum_zero head)) load_error
  let revision = get_or head 15 0
  let rsdt = le_field head 16 4
  by_revision machine address revision rsdt

unfoldable pub find_rsdp : Machine → Result Status Rsdp
find_rsdp machine = do
  entries ← ok_or machine.config not_found
  refuse (length entries == 0 || ltb 256 (length entries)) not_found
  let (two, one) = vendors entries 0 0
  let address = if not (two == 0) then two else one
  refuse (address == 0) not_found
  read_rsdp machine address

-- A table that the instrument dumps.
pub record Table : Type 0 where
  pub address : ℕ
  pub contents : List ℕ

abbrev pub xsdt_sig : List ℕ
xsdt_sig = 0x58 ∷ 0x53 ∷ 0x44 ∷ 0x54 ∷ []

abbrev pub rsdt_sig : List ℕ
rsdt_sig = 0x52 ∷ 0x53 ∷ 0x44 ∷ 0x54 ∷ []

abbrev pub table_of : ℕ → Result Status (List ℕ) → Option Table
table_of address (err e) = none
table_of address (ok bytes) = some (record { address = address; contents = bytes })

-- The length that a table's header names, unless it is out of bounds.
abbrev pub table_behind : Machine → ℕ → Result Status (List ℕ) → Option Table
table_behind machine address (err e) = none
table_behind machine address (ok hdr) =
    if ltb (le_field hdr 4 4) 36 || ltb max_table_bytes (le_field hdr 4 4)
    then none
    else table_of address (phys_copy machine address (le_field hdr 4 4))

-- One round of the loop of `run`: `none` is an entry that it skips.
unfoldable pub read_table : Machine → ℕ → Option Table
read_table machine address = table_behind machine address (phys_copy machine address 36)

-- What a part of `run` answers, and the tables that it dumps.
abbrev pub Dump : Type 0
Dump = Result Status (Unit {0}) × List Table

abbrev pub dumps : Option Table → Dump → Dump
dumps none later = later
dumps (some t) (r, ts) = (r, t ∷ ts)

-- `?`, where an error keeps what was dumped before.
abbrev pub given {ℓ} : {A : Type ℓ} → Result Status A → (A → Dump) → Dump
given (err e) f = (err e, [])
given (ok a) f = f a

-- The loop of `run` over the entries of the root table.
unfoldable pub read_tables : Machine → List ℕ → (entry_size offset count : ℕ) → Dump
read_tables machine root entry_size offset zero = (ok tt, [])
read_tables machine root entry_size offset (suc count) =
    let address = le_field root offset entry_size in
    let rest = read_tables machine root entry_size (offset + entry_size) count in
    if address == 0 then (err compromised_data, []) else dumps (read_table machine address) rest

-- The root table: where it is, whether it is an XSDT, its length and its bytes.
pub record Root : Type 0 where
  pub address : ℕ
  pub is_xsdt : Bool
  pub len : ℕ
  pub contents : List ℕ

-- `run` from the address of the root to its checksum.
unfoldable pub read_root : Machine → Rsdp → Result Status Root
read_root machine rsdp = do
  let is_wide = not (rsdp.xsdt == 0)
  let root = if is_wide then rsdp.xsdt else rsdp.rsdt
  refuse (root == 0) not_found
  hdr ← phys_copy machine root 36
  let len = le_field hdr 4 4
  refuse (ltb len 36 || ltb max_xsdt_bytes len) load_error
  refuse ((is_wide && not (starts xsdt_sig hdr)) || (not is_wide && not (starts rsdt_sig hdr)))
      load_error
  bytes ← phys_copy machine root len
  refuse (not (checksum_zero bytes)) crc_error
  ok (record { address = root; is_xsdt = starts xsdt_sig hdr; len = len; contents = bytes })

abbrev pub entry_size_of : Root → ℕ
entry_size_of root = if root.is_xsdt then 8 else 4

-- The number of entries.
unfoldable pub entry_count : Root → Result Status ℕ
entry_count root = do
  let size = entry_size_of root
  let room = root.len - 36
  refuse (not (room % size == 0)) bad_buffer_size
  refuse (room / size == 0 || ltb max_tables (room / size)) bad_buffer_size
  ok (room / size)

-- `run` behind the dump of the root.
unfoldable pub walk_entries : Machine → Root → Dump
walk_entries machine root =
    given (entry_count root) (read_tables machine root.contents (entry_size_of root) 36)

-- `run` behind the dump of the root pointer.
abbrev pub walk_root : Machine → Root → Dump
walk_root machine root =
    dumps (some (record { address = root.address; contents = root.contents }))
      (walk_entries machine root)

abbrev pub walk_pointer : Machine → Rsdp → List ℕ → Dump
walk_pointer machine rsdp bytes =
    dumps (some (record { address = rsdp.address; contents = bytes }))
      (given (read_root machine rsdp) (walk_root machine))

-- `run` behind `find_rsdp`: how it ends, and the tables that it dumps, also before an error.
unfoldable pub walk_tables : Machine → Rsdp → Dump
walk_tables machine rsdp =
    given (phys_copy machine rsdp.address rsdp.bytes) (walk_pointer machine rsdp)
