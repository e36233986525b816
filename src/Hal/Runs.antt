-- ===== src/Hal/Runs.antt =====
-- A firmware with one ACPI page.
use nextcore_efi.Common.Bytes.{le_value}
use nextcore_efi.Common.{
  List, [], err, false, if◌then◌else◌, is_ok, none, ok, refl, ℕ, ◌==◌, ◌∷◌, ◌≡◌,
}
use nextcore_efi.Status.{bad_buffer_size}
use nextcore_efi.Hal.{
  Machine, Table, Rsdp, bytes_at, phys_copy, walk_tables, read_root, entry_count, walk_entries,
  read_tables, read_table,
}
use nextcore_efi.Hal.Walk.{IsWalk, IsFull, walk_tables-IsWalk}

-- A root table at 0x9100 that names one table, at 0x9200.
abbrev stored : ℕ → ℕ
stored address =
    if address == 0x9100
    then 0x52
    else if address == 0x9101
    then 0x53
    else if address == 0x9102
    then 0x44
    else if address == 0x9103
    then 0x54
    else if address == 0x9104
    then 40
    else if address == 0x9108
    then 9
    else if address == 0x9125
    then 0x92
    else if address == 0x9204
    then 36
    else 0

abbrev machine : Machine
machine = record {
  map = ok (record { ty = 9; phys_start = 0x9000; page_count = 1 } ∷ []);
  memory = stored;
  config = none;
}

copy_run : phys_copy machine 0x9100 4 ≡ ok (0x52 ∷ 0x53 ∷ 0x44 ∷ 0x54 ∷ [])
unfolding phys_copy
copy_run = refl

outside_run : is_ok (phys_copy machine 0x8fff 4) ≡ false
unfolding phys_copy
outside_run = refl

abbrev rsdp : Rsdp
rsdp = record { address = 0x9000; bytes = 20; revision = 0; rsdt = 0x9100; xsdt = 0 }

abbrev tables : List Table
tables =
    record { address = 0x9000; contents = bytes_at stored 0x9000 20 }
    ∷ record { address = 0x9100; contents = bytes_at stored 0x9100 40 }
    ∷ record { address = 0x9200; contents = bytes_at stored 0x9200 36 }
    ∷ []

walk_run : walk_tables machine rsdp ≡ (ok tt, tables)
unfolding walk_tables phys_copy read_root entry_count walk_entries read_tables read_table le_value
walk_run = refl

-- A root of no entry is dumped before the walk fails, as the pointer is.
abbrev empty_root : Machine
empty_root = record machine {
  memory = λ address.
      if address == 0x9104 then 36 else if address == 0x9108 then 159 else stored address;
}

short_run : walk_tables empty_root rsdp ≡ (
  err bad_buffer_size,
  record { address = 0x9000; contents = bytes_at empty_root.memory 0x9000 20 }
      ∷ record { address = 0x9100; contents = bytes_at empty_root.memory 0x9100 36 }
      ∷ [],
)
unfolding walk_tables phys_copy read_root entry_count walk_entries read_tables read_table le_value
short_run = refl

walk_tables-IsWalk_example :
    let (result, ts) = walk_tables machine rsdp in
    IsWalk machine rsdp ts × (result ≡ ok tt → IsFull machine rsdp ts)
walk_tables-IsWalk_example = walk_tables-IsWalk machine rsdp
