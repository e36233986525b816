-- ===== src/Kernel/Runs.antt =====
-- Runs of src/loaded_kernel.rs at one small kernel.
use nextcore_efi.Common.{
  All, IsByte, List, [], ap, arith, err, length, map, ok, refl, replicate, some, suc, true, ℕ, ◌%◌,
  ◌*◌, ◌==◌, ◌^◌, ◌∷◌, ◌≡◌,
}
use nextcore_efi.Status.{device_error}
use nextcore_efi.Memory.Calls.{Block, allocates, zeroes, allocated, freed}
use nextcore_efi.Files.{Volume}
use nextcore_efi.Kernel.Prepare.{Image, Formats, Disk, physical_base_of, prepare}
use nextcore_efi.Kernel.Prepare.Laws.{IsPrepared, prepare-IsPrepared}
use nextcore_efi.Kernel.Verify.{verify_memory, bytes_match, words_match}
use nextcore_efi.Kernel.Load.{
  Plan, Parser, Source, Machine, Loaded, fails, admit, load_at, copy_segments, check_segments,
  physical_entry, arena_bytes,
}
use nextcore_efi.Kernel.Load.Layout.{image_of, IsLaidOut}
use nextcore_efi.Kernel.Load.Laws.{IsLoaded, load_at-IsLoaded}
use nextcore_efi.Kernel.Load.Outcome.{load_at-laid_out, load_at_err}

abbrev small_plan : Plan
small_plan = record {
  image_size = 8;
  entry_offset = 2;
  segments =
      (record { memory_offset = 1; file_offset = 2; file_size = 3; memory_size = 4 })
      ∷ (record { memory_offset = 5; file_offset = 0; file_size = 2; memory_size = 2 })
      ∷ [];
}

abbrev small_source : Source
small_source = record { address = 100; bytes = 10 ∷ 11 ∷ 12 ∷ 13 ∷ 14 ∷ 15 ∷ [] }

-- A parser of this one plan, with pages of four bytes.
abbrev small_parser : Parser
small_parser = record {
  page_size = 4;
  max_image_size = 64;
  parse = λ bytes. some small_plan;
  same = λ p q. p.image_size == q.image_size;
}

abbrev plain : Machine
plain = record { allocate = λ base pages. ok base; readback = λ m. m }

-- Memory that keeps the low eight bits of what is written.
abbrev bytewise : Machine
bytewise = record { allocate = λ base pages. ok base; readback = λ m. map (λ b. b % 256) m }

bytewise_length : (m : List ℕ) → length (map (λ b. b % 256) m) ≡ length m
bytewise_length [] = refl
bytewise_length (x ∷ xs) = ap suc (bytewise_length xs)

bytewise-IsByte : (m : List ℕ) → All IsByte (map (λ b. b % 256) m)
bytewise-IsByte [] = tt
bytewise-IsByte (x ∷ xs) = (omega arith, bytewise-IsByte xs)

-- Memory that reads back as zeros.
abbrev blank : Machine
blank = record { allocate = λ base pages. ok base; readback = λ m. replicate (length m) 0 }

small_memory : List ℕ
small_memory = 0 ∷ 12 ∷ 13 ∷ 14 ∷ 0 ∷ 10 ∷ 11 ∷ 0 ∷ 0 ∷ 0 ∷ 0 ∷ 0 ∷ []

small_image : image_of small_source.bytes 0 12 small_plan.segments ≡ small_memory
unfolding image_of small_memory
small_image = refl

admitted : admit small_parser small_plan small_source 16 1 ≡ ok (4, 12)
unfolding admit
admitted = refl

small_source-IsByte : All IsByte small_source.bytes
small_source-IsByte = omega arith

small_plan-IsLaidOut : IsLaidOut 6 0 12 small_plan.segments
unfolding IsLaidOut
small_plan-IsLaidOut =
    (omega arith, omega arith, omega arith, (omega arith, omega arith, omega arith, omega arith))

load_at-laid_out_example : load_at small_parser plain small_plan small_source 16 1 ≡ (
  ok (record {
    allocation = 16;
    pages = 3;
    image_size = 8;
    arena_size = 4;
    entry_offset = 2;
    memory = image_of small_source.bytes 0 12 small_plan.segments;
  }),
  allocates 16 3 ∷ zeroes 16 12 ∷ [],
)
load_at-laid_out_example =
    load_at-laid_out small_parser plain small_plan small_source 16 1 4 12 admitted refl (λ m. refl)
      small_source-IsByte small_plan-IsLaidOut

abbrev small_kernel : Loaded
small_kernel = record {
  allocation = 16;
  pages = 3;
  image_size = 8;
  arena_size = 4;
  entry_offset = 2;
  memory = image_of small_source.bytes 0 12 small_plan.segments;
}

small_load : (load_at small_parser bytewise small_plan small_source 16 1).0 ≡ ok small_kernel
unfolding load_at admit copy_segments check_segments verify_memory bytes_match words_match image_of
small_load = refl

small_entry : physical_entry small_kernel ≡ 18
small_entry = refl

small_arena : arena_bytes small_kernel ≡ 0 ∷ 0 ∷ 0 ∷ 0 ∷ []
unfolding image_of
small_arena = refl

load_at-IsLoaded_example : IsLoaded small_parser bytewise small_plan small_source 16 1 small_kernel
load_at-IsLoaded_example =
    load_at-IsLoaded small_parser bytewise small_plan small_source 16 1 small_source-IsByte
      bytewise_length bytewise-IsByte small_kernel small_load

blank_fails : (load_at small_parser blank small_plan small_source 16 1).0 ≡ err (fails device_error)
unfolding load_at admit copy_segments check_segments verify_memory bytes_match words_match
blank_fails = refl

-- The pages of the request.
abbrev small_block : Block
small_block = record { address = 16; pages = 3 }

load_at_err_example :
    allocated small_block (load_at small_parser blank small_plan small_source 16 1).1
    ≡ freed small_block (load_at small_parser blank small_plan small_source 16 1).1
load_at_err_example =
    load_at_err small_parser blank small_plan small_source 16 small_block 1 device_error blank_fails

-- A configuration of three bytes that names one kernel of one page at 1 MiB.
abbrev page_parser : Parser
page_parser = record small_parser { page_size = 4096; max_image_size = 4096 * 4 }

abbrev page_image : Image
page_image = record {
  plan = record small_plan { image_size = 4096 };
  preferred_base = 0xffffff8000100000;
  is_unix_thread = true;
}

abbrev page_volume : Volume
page_volume = record {
  file_system = ok tt;
  root = ok tt;
  handle = ok tt;
  is_regular = true;
  file_size = ok 6;
  read = λ at room. ok (replicate room 1);
}

abbrev page_formats : Formats
page_formats = record { target = λ bytes. some (some bytes); image = λ bytes. some page_image }

abbrev page_disk : Disk
page_disk = record {
  config = page_volume;
  kernel = λ path. page_volume;
  source_address = 2 ^ 20 * 128;
}

page_placed : physical_base_of page_image ≡ ok 0x100000
unfolding physical_base_of
page_placed = refl

prepare-IsPrepared_example : IsPrepared (prepare page_parser bytewise page_formats page_disk)
prepare-IsPrepared_example = prepare-IsPrepared page_parser bytewise refl page_formats page_disk
