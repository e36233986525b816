-- ===== src/Kernel/Load.antt =====
-- `LoadedKernel::load_at` of src/loaded_kernel.rs. The parser of the core library and the firmware are
-- parameters; a slice out of range panics, which runs no destructor in this program.
pub mod Laws
pub mod Layout
mod Check
mod Copy
pub mod Outcome
use nextcore_efi.Common.{
  Bool, List, Option, Result, [], checked_add, checked_mul, drop, err, false, if◌then◌else◌, leb,
  length, ltb, none, not, ok, ok_or, refuse, replicate, some, take, true, ℕ, ◌%◌, ◌&&◌, ◌++◌, ◌+◌,
  ◌-◌, ◌/◌, ◌==◌, ◌>>=◌, ◌>>◌, ◌^◌, ◌||◌, ◌∷◌,
}
use nextcore_efi.Status.{Status, invalid_parameter, device_error}
use nextcore_efi.Memory.Calls.{Call, allocates, frees, zeroes}
use nextcore_efi.Kernel.Verify.{verify_memory}

abbrev pub four_gib : ℕ
four_gib = 2 ^ 32

abbrev pub max_extra_pages : ℕ
max_extra_pages = 256

-- A segment of `MachOImagePlan`, as far as `load_at` reads it.
pub record Segment : Type 0 where
  pub memory_offset : ℕ
  pub file_offset : ℕ
  pub file_size : ℕ
  pub memory_size : ℕ

pub record Plan : Type 0 where
  pub image_size : ℕ
  pub entry_offset : ℕ
  pub segments : List Segment

-- The parser's constants, `parse_macho_image` on the bytes of a source, and the derived equality.
pub record Parser : Type 0 where
  pub page_size : ℕ
  pub max_image_size : ℕ
  pub parse : List ℕ → Option Plan
  pub same : Plan → Plan → Bool

-- A source slice, at its address.
pub record Source : Type 0 where
  pub address : ℕ
  pub bytes : List ℕ

-- AllocatePages at an address for a number of pages, and the memory that volatile reads see of what
-- was written.
pub record Machine : Type 0 where
  pub allocate : ℕ → ℕ → Result Status ℕ
  pub readback : List ℕ → List ℕ

-- `LoadedKernel`, with the bytes of its allocation.
pub record Loaded : Type 0 where
  pub allocation : ℕ
  pub pages : ℕ
  pub image_size : ℕ
  pub arena_size : ℕ
  pub entry_offset : ℕ
  pub memory : List ℕ

pub data Stop : Type 0 where
  panics : Stop
  fails : Status → Stop

-- `&xs[from..to]`
abbrev pub slice : ℕ → ℕ → List ℕ → Option (List ℕ)
slice from to xs =
    if leb from to && leb to (length xs) then some (take (to - from) (drop from xs)) else none

-- `xs[at..at + ys.len()].copy_from_slice(ys)`
abbrev pub overwrite : ℕ → List ℕ → List ℕ → Option (List ℕ)
overwrite at ys xs =
    if leb (at + length ys) (length xs)
    then some (take at xs ++ (ys ++ drop (at + length ys) xs))
    else none

-- One round of the copy, by the slice of the source.
abbrev pub copy_payload : ℕ → List ℕ → Option (List ℕ) → Option (List ℕ)
copy_payload at memory none = none
copy_payload at memory (some payload) = overwrite at payload memory

-- The loop that copies the segments.
unfoldable pub copy_segments : List ℕ → List Segment → Option (List ℕ) → Option (List ℕ)
copy_segments source [] memory = memory
copy_segments source (s ∷ ss) none = none
copy_segments source (s ∷ ss) (some memory) =
    copy_segments source ss (
      copy_payload s.memory_offset memory
        (slice s.file_offset (s.file_offset + s.file_size) source))

-- `verify_memory` of a slice at an address; a slice out of range panics.
abbrev pub matched : (address : ℕ) → Option (List ℕ) → Option (List ℕ) → Option Bool
matched address expected none = none
matched address expected (some actual) = some (verify_memory address actual expected)

-- `verify_memory(&memory[from..to], expected)`, for memory at `base`.
abbrev pub range_matches : (base from to : ℕ) → List ℕ → Option (List ℕ) → Option Bool
range_matches base from to memory expected = matched (base + from) expected (slice from to memory)

-- `a || b` on tests that may panic: the second is made if the first answers true here, since the source
-- negates both.
abbrev pub and_then : Option Bool → Option Bool → Option Bool
and_then none b = none
and_then (some false) b = some false
and_then (some true) b = b

abbrev pub file_matches : (address : ℕ) → Option (List ℕ) → Option (List ℕ) → Option Bool
file_matches address none actual = none
file_matches address (some payload) actual = matched address (some payload) actual

abbrev pub payload_matches : ℕ → List ℕ → List ℕ → Segment → Option Bool
payload_matches base source memory s =
    file_matches (base + s.memory_offset) (slice s.file_offset (s.file_offset + s.file_size) source)
      (slice s.memory_offset (s.memory_offset + s.file_size) memory)

-- The three tests of a segment behind `previous`.
abbrev pub segment_matches : (base previous : ℕ) → List ℕ → List ℕ → Segment → Option Bool
segment_matches base previous source memory s =
    and_then (range_matches base previous s.memory_offset memory none) (
      and_then (payload_matches base source memory s) (
        range_matches base (s.memory_offset + s.file_size) (s.memory_offset + s.memory_size) memory
          none))

-- The loop that verifies, and the test of what is behind the last segment.
unfoldable pub check_segments : (base previous : ℕ) → List ℕ → List Segment → List ℕ → Option Bool
check_segments base previous source [] memory =
    range_matches base previous (length memory) memory none
check_segments base previous source (s ∷ ss) memory =
    let others = check_segments base (s.memory_offset + s.memory_size) source ss memory in
    and_then (segment_matches base previous source memory s) others

-- The first test of `load_at`.
abbrev pub bad_request : Parser → Plan → (base extra_pages : ℕ) → Bool
bad_request parser plan base extra_pages =
    base == 0
    || not (base % parser.page_size == 0)
    || plan.image_size == 0
    || ltb parser.max_image_size plan.image_size
    || not (plan.image_size % parser.page_size == 0)
    || ltb max_extra_pages extra_pages

abbrev pub is_plan_of : Parser → Plan → Option Plan → Bool
is_plan_of parser plan none = false
is_plan_of parser plan (some validated) = parser.same validated plan

-- `load_at` up to the allocation: the sizes of the arena and of the allocation.
unfoldable pub admit : Parser → Plan → Source → (base extra_pages : ℕ) → Result Status (ℕ × ℕ)
admit parser plan source base extra_pages = do
  refuse (bad_request parser plan base extra_pages) invalid_parameter
  arena ← ok_or (checked_mul extra_pages parser.page_size) invalid_parameter
  total ← ok_or (checked_add plan.image_size arena) invalid_parameter
  end ← ok_or (checked_add base total) invalid_parameter
  refuse (ltb four_gib end || ltb (2 ^ 63 - 1) total) invalid_parameter
  refuse (leb plan.image_size plan.entry_offset) invalid_parameter
  refuse (not (is_plan_of parser plan (parser.parse source.bytes))) invalid_parameter
  source_end ← ok_or (checked_add source.address (length source.bytes)) invalid_parameter
  refuse (ltb base source_end && ltb source.address end) invalid_parameter
  ok (arena, total)

-- The end of `load_at`, by the answer of the verification; `freed` is the drop of the owner.
abbrev pub with_check : Loaded → List Call → Call → Option Bool → Result Stop Loaded × List Call
with_check loaded log freed none = (err panics, log)
with_check loaded log freed (some false) = (err (fails device_error), log ++ (freed ∷ []))
with_check loaded log freed (some true) = (ok loaded, log)

abbrev pub with_copy :
    Machine
    → Plan
    → List ℕ
    → Loaded
    → List Call
    → Call
    → Option (List ℕ)
    → Result Stop Loaded × List Call
with_copy machine plan source loaded log freed none = (err panics, log)
with_copy machine plan source loaded log freed (some written) =
    let memory = machine.readback written in
    with_check (record loaded { memory = memory }) log freed
      (check_segments loaded.allocation 0 source plan.segments memory)

-- `load_at` with the pages that the firmware gave.
abbrev pub with_pages :
    Machine → Plan → Source → (base total : ℕ) → Loaded → Result Stop Loaded × List Call
with_pages machine plan source base total loaded =
    let log = allocates loaded.allocation loaded.pages ∷ [] in
    let freed = frees loaded.allocation loaded.pages in
    if not (loaded.allocation == base)
    then (err (fails device_error), log ++ (freed ∷ []))
    else with_copy machine plan source.bytes loaded (log ++ (zeroes loaded.allocation total ∷ []))
        freed (copy_segments source.bytes plan.segments (some (replicate total 0)))

abbrev pub with_allocation :
    Parser
    → Machine
    → Plan
    → Source
    → (base arena total : ℕ) → Result Status ℕ
    → Result Stop Loaded × List Call
with_allocation parser machine plan source base arena total (err e) = (err (fails e), [])
with_allocation parser machine plan source base arena total (ok allocation) =
    with_pages machine plan source base total (record {
      allocation = allocation;
      pages = total / parser.page_size;
      image_size = plan.image_size;
      arena_size = arena;
      entry_offset = plan.entry_offset;
      memory = replicate total 0;
    })

abbrev pub with_room :
    Parser
    → Machine
    → Plan
    → Source
    → (base : ℕ) → Result Status (ℕ × ℕ)
    → Result Stop Loaded × List Call
with_room parser machine plan source base (err e) = (err (fails e), [])
with_room parser machine plan source base (ok (arena, total)) =
    with_allocation parser machine plan source base arena total
      (machine.allocate base (total / parser.page_size))

-- `LoadedKernel::load_at`, with the calls of the firmware that it made.
unfoldable pub load_at :
    Parser → Machine → Plan → Source → (base extra_pages : ℕ) → Result Stop Loaded × List Call
load_at parser machine plan source base extra_pages =
    with_room parser machine plan source base (admit parser plan source base extra_pages)

-- `physical_entry`
abbrev pub physical_entry : Loaded → ℕ
physical_entry l = l.allocation + l.entry_offset

-- `arena_bytes_mut`, which cannot be out of range in a loaded kernel.
abbrev pub arena_bytes : Loaded → List ℕ
arena_bytes l = drop l.image_size l.memory
