-- ===== src/Kernel/Load/Outcome.antt =====
-- `LoadedKernel::load_at` of src/loaded_kernel.rs: which requests it serves, and what a failure frees.
use nextcore_efi.Common.{
  ==_iff, All, All-append, All-drop, All-take, Bool, Bool-cases, IsByte, List, Option, Result, [],
  ap, arith, drop, err, false, inl, inr, length, length-replicate, none, ok, refl, replicate, some,
  subst, suc, sym, true, zero, ℕ, ◌++◌, ◌+◌, ◌-◌, ◌/◌, ◌==◌, ◌∙◌, ◌∷◌, ◌≡◌,
}
use nextcore_efi.Status.{Status}
use nextcore_efi.Memory.Calls.{Block, Call, allocates, frees, zeroes, allocated, freed}
use nextcore_efi.Kernel.Load.{
  Segment, Plan, Parser, Source, Machine, Loaded, Stop, fails, copy_segments, check_segments, admit,
  with_check, with_copy, with_pages, with_allocation, with_room, load_at,
}
use nextcore_efi.Kernel.Load.Layout.{payload, image_of, IsLaidOut}
use nextcore_efi.Kernel.Load.Check.{check_segments_iff}
use nextcore_efi.Kernel.Load.Copy.{copy_segments-length, copy_segments_layout}
use nextcore_efi.Kernel.Load.Laws.{run_of_pages}

IsByte-zeros : (n : ℕ) → All IsByte (replicate n 0)
IsByte-zeros zero = tt
IsByte-zeros (suc n) = (omega arith, IsByte-zeros n)

image_of-IsByte :
    (source : List ℕ) (previous total : ℕ) (ss : List Segment)
    → All IsByte source
    → All IsByte (image_of source previous total ss)
unfolding image_of
image_of-IsByte source previous total [] h = IsByte-zeros (total - previous)
image_of-IsByte source previous total (s ∷ ss) h =
    let end = s.memory_offset + s.memory_size in
    let rest = image_of source end total ss in
    let tail = replicate (s.memory_size - s.file_size) 0 in
    let join = All-append IsByte in
    join (replicate (s.memory_offset - previous) 0) (payload source s ++ (tail ++ rest))
      (IsByte-zeros (s.memory_offset - previous))
      (join (payload source s) (tail ++ rest)
        (All-take IsByte s.file_size (drop s.file_offset source)
          (All-drop IsByte s.file_offset source h))
        (join tail rest (IsByte-zeros (s.memory_size - s.file_size))
          (image_of-IsByte source end total ss h)))

module _ (parser : Parser) (machine : Machine) (plan : Plan) (source : Source)
    (base extra_pages : ℕ) where
  -- An admitted request whose segments lie in order within the file and the allocation is served, if the
  -- firmware gives the pages and the memory reads back what was written: `load_at` does not panic, and
  -- the kernel has the layout of the plan.
  pub load_at-laid_out :
      (arena total : ℕ)
      → admit parser plan source base extra_pages ≡ ok (arena, total)
      → machine.allocate base (total / parser.page_size) ≡ ok base
      → ((m : List ℕ) → machine.readback m ≡ m)
      → All IsByte source.bytes
      → IsLaidOut (length source.bytes) 0 total plan.segments
      → load_at parser machine plan source base extra_pages ≡ (
        ok (record {
          allocation = base;
          pages = total / parser.page_size;
          image_size = plan.image_size;
          arena_size = arena;
          entry_offset = plan.entry_offset;
          memory = image_of source.bytes 0 total plan.segments;
        }),
        allocates base (total / parser.page_size) ∷ zeroes base total ∷ [],
      )
  load_at-laid_out arena total admitted given faithful bytes laid =
      let image = image_of source.bytes 0 total plan.segments in
      let copied : copy_segments source.bytes plan.segments (some (replicate total 0))
          ≡ some image =
        ap (λ n. copy_segments source.bytes plan.segments (some (replicate n 0))) (omega arith)
        ∙ copy_segments_layout source.bytes [] 0 total plan.segments refl laid in
      let size : length image ≡ total =
        copy_segments-length source.bytes (replicate total 0) image plan.segments copied
        ∙ length-replicate total 0 in
      let passed : check_segments base 0 source.bytes plan.segments image ≡ some true =
        (check_segments_iff base image source.bytes
            (image_of-IsByte source.bytes 0 total plan.segments bytes) bytes 0 plan.segments).1
          (
            subst (λ n. IsLaidOut (length source.bytes) 0 n plan.segments) (sym size) laid,
            ap (λ n. image_of source.bytes 0 n plan.segments) (sym size),
          ) in
      let placed : (base == base) ≡ true = (==_iff base base).1 refl in
      run_of_pages parser machine plan source base extra_pages arena total (ok base) admitted given
      ∙ rw (placed, copied, faithful image, passed) refl

-- A run that ends with a status has freed the block `q` as often as it was given it.
abbrev FreesAll : Block → Result Stop Loaded × List Call → Type 0
FreesAll q run = (s : Status) → run.0 ≡ err (fails s) → allocated q run.1 ≡ freed q run.1

module _ (q : Block) (base pages total : ℕ) where
  abbrev calls : List Call
  calls = allocates base pages ∷ zeroes base total ∷ []

  check-FreesAll :
      (loaded : Loaded) (o : Option Bool)
      → FreesAll q (with_check loaded calls (frees base pages) o)
  unfolding allocated freed
  check-FreesAll loaded none s h = cc
  check-FreesAll loaded (some false) s h = omega arith
  check-FreesAll loaded (some true) s h = cc

  copy-FreesAll :
      (machine : Machine) (plan : Plan) (source : List ℕ) (loaded : Loaded) (o : Option (List ℕ))
      → FreesAll q (with_copy machine plan source loaded calls (frees base pages) o)
  copy-FreesAll machine plan source loaded none s h = cc
  copy-FreesAll machine plan source loaded (some written) s h =
      check-FreesAll (record loaded { memory = machine.readback written })
        (check_segments loaded.allocation 0 source plan.segments (machine.readback written)) s h

module _ (parser : Parser) (machine : Machine) (plan : Plan) (source : Source) (base : ℕ)
    (q : Block) where
  pages-FreesAll :
      (total : ℕ) (loaded : Loaded) → FreesAll q (with_pages machine plan source base total loaded)
  unfolding allocated freed
  pages-FreesAll total loaded s h = elim (Bool-cases (loaded.allocation == base)) [
    | inr elsewhere ↦ rw elsewhere (omega arith)
    | inl placed ↦
        let o = copy_segments source.bytes plan.segments (some (replicate total 0)) in
        let h' : (with_copy machine plan source.bytes loaded
              (calls q loaded.allocation loaded.pages total) (frees loaded.allocation loaded.pages)
              o).0
            ≡ err (fails s) =
          ground arith in
        rw placed (
          copy-FreesAll q loaded.allocation loaded.pages total machine plan source.bytes loaded o s
            h')
  ]

  allocation-FreesAll :
      (arena total : ℕ) (a : Result Status ℕ)
      → FreesAll q (with_allocation parser machine plan source base arena total a)
  unfolding allocated freed
  allocation-FreesAll arena total (err e) s h = refl
  allocation-FreesAll arena total (ok allocation) s h =
      pages-FreesAll total
        (record {
          allocation = allocation;
          pages = total / parser.page_size;
          image_size = plan.image_size;
          arena_size = arena;
          entry_offset = plan.entry_offset;
          memory = replicate total 0;
        })
        s h

  room-FreesAll :
      (r : Result Status (ℕ × ℕ)) → FreesAll q (with_room parser machine plan source base r)
  unfolding allocated freed
  room-FreesAll (err e) s h = refl
  room-FreesAll (ok (arena, total)) s h =
      allocation-FreesAll arena total (machine.allocate base (total / parser.page_size)) s h

  -- A `load_at` that ends with an error status has freed each block of pages, with its number of pages,
  -- exactly as often as the firmware gave it: a refused request, pages elsewhere, and a failed readback.
  pub load_at_err :
      (extra_pages : ℕ) (s : Status)
      → (load_at parser machine plan source base extra_pages).0 ≡ err (fails s)
      → allocated q (load_at parser machine plan source base extra_pages).1
        ≡ freed q (load_at parser machine plan source base extra_pages).1
  unfolding load_at
  load_at_err extra_pages s h = room-FreesAll (admit parser plan source base extra_pages) s h
