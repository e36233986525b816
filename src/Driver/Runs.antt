-- ===== src/Driver/Runs.antt =====
-- Runs of src/apfs_driver.rs: one container among three partitions, and one driver.
use nextcore_efi.Common.{
  ==_iff, List, Result, [], ap, arith, err, false, if◌then◌else◌, leb, length, ok, refl, replicate,
  some, sym, true, ℕ, ◌+◌, ◌==◌, ◌↔◌, ◌∙◌, ◌∷◌, ◌≡◌, ◌≤◌,
}
use nextcore_efi.Status.{Status, success, unsupported, end_of_file}
use nextcore_efi.Driver.Media.{
  Partition, candidate, find_container, Media, Geometry, media_geometry, max_partition_handles,
  JumpstartError, read_exact_at,
}
use nextcore_efi.Driver.Media.Laws.{IsOnly, candidate_iff}
use nextcore_efi.Driver.Read.{Disk, Driver, Jumpstart, Container, read_driver}
use nextcore_efi.Driver.Read.Laws.{Agree, IsStable, read_driver-IsStable}
use nextcore_efi.Driver.Start.{Child, loads, unloads, starts, connects, start_driver, load_driver}
use nextcore_efi.Driver.Start.Laws.{IsClean, start_driver-IsClean}

abbrev partitions : List Partition
partitions =
    (record { handle = 1; is_container = ok false })
    ∷ (record { handle = 2; is_container = ok true })
    ∷ (record { handle = 3; is_container = ok false })
    ∷ []

candidate_iff_example :
    (candidate (ok partitions) ≡ ok 2)
    ↔ ((length partitions ≤ max_partition_handles) × IsOnly 2 partitions)
candidate_iff_example = candidate_iff partitions 2

found : candidate (ok partitions) ≡ ok 2
unfolding candidate find_container
found = refl

abbrev media : Media
media = record {
  media_id = 7;
  is_media_present = true;
  is_logical_partition = true;
  block_size = 512;
  last_block = 99;
}

abbrev geometry : Geometry
geometry = record { media_id = 7; block_size = 512; bytes = 51200 }

measured : media_geometry media ≡ ok geometry
unfolding media_geometry
measured = refl

-- A disk of ones, and one that answers nothing behind the partition.
abbrev ones : Disk
ones offset n = ok (replicate n 1)

abbrev bounded : Disk
bounded offset n = if leb (offset + n) 51200 then ok (replicate n 1) else err end_of_file

ones-bounded : Agree 51200 ones bounded
ones-bounded offset n h = ground arith

-- An extraction that reads four bytes at offset eight.
abbrev read_four : Result Status (List ℕ) → Result JumpstartError (Driver ℕ)
read_four (err e) = err (JumpstartError.io e)
read_four (ok bytes) = ok (record {
  bytes = bytes;
  container_uuid = [];
  block_size = 512;
  container_block_count = 1;
  jumpstart_block = 0;
  extents = 0;
})

abbrev four_bytes : Jumpstart ℕ
four_bytes = record { extract = λ disk bytes. read_four (disk 8 4); same_extents = λ a b. a == b }

abbrev container : Container
container = record {
  info = ok (some (some 100));
  block = ok media;
  disk = ok tt;
  first = ones;
  second = ones;
  later = media;
}

abbrev driver : Driver ℕ
driver = record {
  bytes = 1 ∷ 1 ∷ 1 ∷ 1 ∷ [];
  container_uuid = [];
  block_size = 512;
  container_block_count = 1;
  jumpstart_block = 0;
  extents = 0;
}

was_read : read_driver four_bytes container ≡ ok driver
unfolding read_driver media_geometry read_exact_at
was_read = refl

read_driver-IsStable_example : IsStable four_bytes container driver
read_driver-IsStable_example =
    read_driver-IsStable four_bytes container (λ a b h. (==_iff a b).0 h) driver was_read

geometry_unique :
    (m : Media) (g : Geometry) → container.block ≡ ok m → media_geometry m ≡ ok g → geometry ≡ g
geometry_unique m g h k =
    let same : media ≡ m = ap (λ r. elim r [ ok x ↦ x | err e ↦ media ]) h in
    let both : ok geometry ≡ ok g = sym measured ∙ ap media_geometry same ∙ k in
    ap (λ r. elim r [ ok x ↦ x | err e ↦ geometry ]) both

-- A driver that starts, and an image that LoadImage rejects with a handle.
abbrev good : Child
good = record {
  path = ok tt;
  has_services = true;
  load_status = success;
  load_handle = some 5;
  is_boot_driver = ok true;
  outcome = success;
  connected = success;
}

abbrev rejected : Child
rejected = record good { load_status = unsupported }

good_run : start_driver 2 good ≡ (ok tt, loads 5 ∷ starts 5 ∷ connects 2 5 ∷ [])
unfolding start_driver load_driver
good_run = refl

rejected_run : start_driver 2 rejected ≡ (err unsupported, loads 5 ∷ unloads 5 ∷ [])
unfolding start_driver load_driver
rejected_run = refl

start_driver-IsClean_example : IsClean rejected (start_driver 2 rejected) 5
start_driver-IsClean_example = start_driver-IsClean 2 rejected 5
