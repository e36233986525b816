-- ===== src/Memory/Collection/Runs.antt =====
-- One collection of a page, loaded, released and probed.
use nextcore_efi.Common.{
  Bool, Bool-cases, List, [], ap, arith, err, false, inl, inr, is_ok, not, ok, refl, some, true, ℕ,
  ◌++◌, ◌==◌, ◌↔◌, ◌∷◌, ◌≡◌, ◌≢◌,
}
use nextcore_efi.Status.{Status, success}
use nextcore_efi.Memory.Descriptor.{page_size}
use nextcore_efi.Memory.Coverage.{share, add_share, tally, reach, walk, coverage}
use nextcore_efi.Memory.Calls.{Block, allocates, zeroes, allocated, freed}
use nextcore_efi.Memory.Collection.{
  Firmware, MapReply, Plan, Loaded, entries_from, refresh, release_inner, new_pages, admit,
  load_into, load, release, probe_readback_failure,
}
use nextcore_efi.Memory.Collection.Laws.{IsLoaded, load-IsLoaded, load_balanced}
use nextcore_efi.Memory.Collection.Release.{IsReturned, release_iff}

-- A map of one descriptor over the page at 0x9000.
abbrev one_page : ℕ → MapReply
one_page ty = record {
  status = success;
  bytes = 48;
  stride = 48;
  version = 1;
  entry = λ i. record { ty = ty; phys_start = 0x9000; page_count = 1 };
}

abbrev firmware : Firmware
firmware = record {
  reserve = true;
  allocate = λ count. ok 0x9000;
  free = success;
  map_held = some (one_page 2);
  map_released = some (one_page 7);
}

abbrev is_seven : List ℕ → Bool
is_seven [] = false
is_seven (b ∷ []) = b == 7
is_seven (b ∷ c ∷ bs) = false

-- A plan that stages the one byte 7 and verifies that nothing else is there.
abbrev plan : Plan ℕ
plan = record {
  arena_size = 0x1000;
  stage_into = λ bytes. some (5, 7 ∷ []);
  mismatch = λ m. not (is_seven m);
}

abbrev loaded : Loaded ℕ
loaded = record {
  pages = record { pointer = some 0x9000; count = 1; bytes = 0x1000 };
  verification = 5;
  map_descriptors = 1;
  memory = 7 ∷ [];
}

load_run :
    load page_size 40 firmware (some plan) 0x20000 16
    ≡ (ok loaded, allocates 0x9000 1 ∷ zeroes 0x9000 0x1000 ∷ [])
unfolding load new_pages load_into admit refresh entries_from coverage tally share add_share walk
    reach
load_run = refl

release_run : (release page_size 40 firmware loaded).0 ≡ ok tt
unfolding release release_inner refresh entries_from coverage tally share add_share walk reach
release_run = refl

-- The source may not lie in the pages that the firmware chose.
overlap_run : is_ok (load page_size 40 firmware (some plan) 0x9800 16).0 ≡ false
unfolding load new_pages load_into admit
overlap_run = refl

load-IsLoaded_example : IsLoaded 40 firmware plan 0x20000 16 loaded
load-IsLoaded_example = load-IsLoaded 40 firmware plan 0x20000 16 loaded (ap (λ r. r.0) load_run)

abbrev loaded_block : Block
loaded_block = record { address = 0x9000; pages = 1 }

load_balanced_example :
    let outcome = load page_size 40 firmware (some plan) 0x20000 16 in
    ((s : Status)
      → outcome.0 ≡ err s
      → allocated loaded_block outcome.1 ≡ freed loaded_block outcome.1)
    × ((l : Loaded ℕ)
        → outcome.0 ≡ ok l
        → (freed loaded_block outcome.1 ≡ 0)
          × (let calls = outcome.1 ++ (release page_size 40 firmware l).1 in
              allocated loaded_block calls ≡ freed loaded_block calls)
          × (let calls = outcome.1 ++ (probe_readback_failure page_size 40 firmware plan l).1 in
              allocated loaded_block calls ≡ freed loaded_block calls))
load_balanced_example = load_balanced 40 firmware plan 0x20000 16 loaded_block firmware

release_iff_example :
    ((release page_size 40 firmware loaded).0 ≡ ok tt) ↔ IsReturned 40 firmware 0x9000 0x1000
release_iff_example = release_iff 40 firmware loaded 0x9000 refl

reports_changes : (m : List ℕ) → m ≢ (7 ∷ []) → not (is_seven m) ≡ true
reports_changes [] h = refl
reports_changes (b ∷ []) h = elim (Bool-cases (b == 7)) [
  | inl same ↦ absurd (h (ground arith))
  | inr other ↦ rw other
]
reports_changes (b ∷ c ∷ bs) h = refl
