-- ===== src/Kernel/Collect/Runs.antt =====
-- Runs of src/kc.rs: the collection \kc, staged by a plan that knows one byte.
use nextcore_efi.Common.{
  All, List, [], false, length, ok, refl, replicate, some, true, ℕ, ◌^◌, ◌↔◌, ◌∷◌, ◌≡◌, ◌≤◌,
}
use nextcore_efi.Status.{success}
use nextcore_efi.Files.{Volume}
use nextcore_efi.Memory.Descriptor.{page_size}
use nextcore_efi.Memory.Collection.{Firmware, MapReply, Plan}
use nextcore_efi.Kernel.Options.{split, is_refused}
use nextcore_efi.Kernel.Options.Names.{IsName}
use nextcore_efi.Kernel.Options.Laws.{join, is_refused_iff}
use nextcore_efi.Kernel.Collect.{Request, split_once, options, Instrument, run}
use nextcore_efi.Kernel.Collect.Laws.{IsBalanced, run-IsBalanced}

abbrev kc_path : List ℕ
kc_path = 92 ∷ 107 ∷ 99 ∷ []

-- `stage \kc`
abbrev request : Request
request = record { raw = ok (some 18); text = some (115 ∷ 116 ∷ 97 ∷ 103 ∷ 101 ∷ 32 ∷ kc_path) }

options_run : options (λ path. true) request ≡ ok (false, kc_path)
unfolding options split_once is_refused split
options_run = refl

-- `\..\kc` goes up.
up_run : is_refused (92 ∷ 46 ∷ 46 ∷ kc_path) ≡ true
unfolding is_refused split
up_run = refl

is_refused_iff_example : (is_refused kc_path ≡ false) ↔ (
    (length kc_path ≤ 1024)
    × ((c : List ℕ) × (cs : List (List ℕ)) × (kc_path ≡ join (c ∷ cs)) × All IsName (c ∷ cs)))
is_refused_iff_example = is_refused_iff kc_path

abbrev map_of : ℕ → MapReply
map_of ty = record {
  status = success;
  bytes = 40;
  stride = 40;
  version = 1;
  entry = λ i. record { ty = ty; phys_start = 0x5000; page_count = 1 };
}

abbrev firmware : Firmware
firmware = record {
  reserve = true;
  allocate = λ count. ok 0x5000;
  free = success;
  map_held = some (map_of 2);
  map_released = some (map_of 7);
}

abbrev first_byte : Plan ℕ
first_byte = record {
  arena_size = page_size;
  stage_into = λ bytes. some (1, 3 ∷ []);
  mismatch = λ m. true;
}

abbrev instrument : Instrument ℕ
instrument = record {
  descriptor_size = 40;
  firmware = firmware;
  later = firmware;
  plan = λ bytes. some first_byte;
  source_address = 0x90000;
  max_input = 2 ^ 20;
}

abbrev volume : Volume
volume = record {
  file_system = ok tt;
  root = ok tt;
  handle = ok tt;
  is_regular = true;
  file_size = ok 4;
  read = λ at room. ok (replicate room 9);
}

run-IsBalanced_example : IsBalanced (run instrument (λ path. true) request (λ path. volume))
run-IsBalanced_example = run-IsBalanced instrument (λ path. true) request (λ path. volume)
