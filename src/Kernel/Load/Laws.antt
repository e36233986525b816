-- ===== src/Kernel/Load/Laws.antt =====
-- `LoadedKernel::load_at` of src/loaded_kernel.rs: what a loaded kernel is, and what every outcome frees.
use nextcore_efi.Common.{
  ==_iff, All, Bool, Bool-cases, IsByte, List, Option, Result, Result-cases, [], ap, arith, err,
  false, inl, inr, length, length-replicate, none, ok, refl, replicate, some, subst, sym, true, ℕ,
  ◌%◌, ◌*◌, ◌+◌, ◌/◌, ◌<◌, ◌==◌, ◌∙◌, ◌∷◌, ◌≡◌, ◌≤◌, ◌⊎◌,
}
use nextcore_efi.Status.{Status}
use nextcore_efi.Memory.Calls.{Call, allocates, frees, zeroes}
use nextcore_efi.Kernel.Load.{
  Plan, Parser, Source, Machine, Loaded, Stop, fails, four_gib, copy_segments, check_segments,
  is_plan_of, admit, with_check, with_copy, with_pages, with_allocation, with_room, load_at,
}
use nextcore_efi.Kernel.Load.Layout.{image_of, IsLaidOut}
use nextcore_efi.Kernel.Load.Check.{check_segments_iff}
use nextcore_efi.Kernel.Load.Copy.{copy_segments-length}

module _ (parser : Parser) (machine : Machine) (plan : Plan) (source : Source)
    (base extra_pages : ℕ) where
  abbrev pub outcome : Result Stop Loaded × List Call
  outcome = load_at parser machine plan source base extra_pages

  -- The request and the placement that `admit` lets through.
  pub record IsAdmitted (arena total : ℕ) : Type 0 where
    pub positive : 0 < base
    pub aligned : base % parser.page_size ≡ 0
    pub whole : plan.image_size % parser.page_size ≡ 0
    pub arena_size : arena ≡ extra_pages * parser.page_size
    pub total_size : total ≡ plan.image_size + arena
    pub low : base + total ≤ four_gib
    pub entry : plan.entry_offset < plan.image_size
    pub parsed : (p : Plan) × (parser.parse source.bytes ≡ some p) × (parser.same p plan ≡ true)
    pub apart : (source.address + length source.bytes ≤ base) ⊎ (base + total ≤ source.address)

  plan_of :
      (o : Option Plan)
      → is_plan_of parser plan o ≡ true
      → (p : Plan) × (o ≡ some p) × (parser.same p plan ≡ true)
  plan_of none h = cc
  plan_of (some p) h = (p, refl, h)

  pub admit-IsAdmitted :
      (arena total : ℕ)
      → admit parser plan source base extra_pages ≡ ok (arena, total)
      → IsAdmitted arena total
  unfolding admit
  admit-IsAdmitted arena total h =
      elim (Bool-cases (is_plan_of parser plan (parser.parse source.bytes))) [
        | inr other ↦ absurd (ground arith)
        | inl same ↦ record {
          positive = ground arith;
          aligned = ground arith;
          whole = ground arith;
          arena_size = ground arith;
          total_size = ground arith;
          low = ground arith;
          entry = ground arith;
          parsed = plan_of (parser.parse source.bytes) same;
          apart = ground arith;
        }
      ]

  with_check_ok :
      (loaded l : Loaded) (log : List Call) (drop_call : Call) (o : Option Bool)
      → (with_check loaded log drop_call o).0 ≡ ok l
      → (o ≡ some true) × (l ≡ loaded) × ((with_check loaded log drop_call o).1 ≡ log)
  with_check_ok loaded l log drop_call none h = cc
  with_check_ok loaded l log drop_call (some false) h = cc
  with_check_ok loaded l log drop_call (some true) h = (refl, cc, refl)

  with_copy_ok :
      (loaded l : Loaded) (log : List Call) (drop_call : Call) (o : Option (List ℕ))
      → (with_copy machine plan source.bytes loaded log drop_call o).0 ≡ ok l
      → (written : List ℕ) × (o ≡ some written)
        × (check_segments loaded.allocation 0 source.bytes plan.segments (machine.readback written)
            ≡ some true)
        × (l ≡ record loaded { memory = machine.readback written })
        × ((with_copy machine plan source.bytes loaded log drop_call o).1 ≡ log)
  with_copy_ok loaded l log drop_call none h = cc
  with_copy_ok loaded l log drop_call (some written) h =
      let memory = machine.readback written in
      let (passed, same, calls) =
        with_check_ok (record loaded { memory = memory }) l log drop_call
          (check_segments loaded.allocation 0 source.bytes plan.segments memory) h in
      (written, refl, passed, same, calls)

  -- The owner that `load_at` makes of an allocation.
  abbrev pub owner : (arena total allocation : ℕ) → List ℕ → Loaded
  owner arena total allocation memory = record {
    allocation = allocation;
    pages = total / parser.page_size;
    image_size = plan.image_size;
    arena_size = arena;
    entry_offset = plan.entry_offset;
    memory = memory;
  }

  abbrev pub acquired : (total allocation : ℕ) → List Call
  acquired total allocation =
      allocates allocation (total / parser.page_size) ∷ zeroes allocation total ∷ []

  with_pages_ok :
      (arena total allocation : ℕ) (l : Loaded)
      → (with_pages machine plan source base total
          (owner arena total allocation (replicate total 0))).0
        ≡ ok l
      → (written : List ℕ) × (allocation ≡ base)
        × (copy_segments source.bytes plan.segments (some (replicate total 0)) ≡ some written)
        × (check_segments allocation 0 source.bytes plan.segments (machine.readback written)
            ≡ some true)
        × (l ≡ owner arena total allocation (machine.readback written))
        × ((with_pages machine plan source base total
              (owner arena total allocation (replicate total 0))).1
            ≡ acquired total allocation)
  with_pages_ok arena total allocation l h = elim (Bool-cases (allocation == base)) [
    | inr elsewhere ↦ absurd (ground arith)
    | inl placed ↦
        let (written, copied, passed, same, calls) =
          with_copy_ok (owner arena total allocation (replicate total 0)) l
            (acquired total allocation) (frees allocation (total / parser.page_size))
            (copy_segments source.bytes plan.segments (some (replicate total 0))) (ground arith) in
        (written, (==_iff allocation base).0 placed, copied, passed, same, ground arith)
  ]

  -- A loaded kernel: admitted at `base`, laid out over zeros, with what was called for it.
  pub record IsLoaded (l : Loaded) : Type 0 where
    pub arena : ℕ
    pub total : ℕ
    pub admitted : IsAdmitted arena total
    pub owned : l ≡ owner arena total base l.memory
    pub allocated_at : machine.allocate base (total / parser.page_size) ≡ ok base
    pub laid_out : IsLaidOut (length source.bytes) 0 total plan.segments
    pub image : l.memory ≡ image_of source.bytes 0 total plan.segments
    pub log : outcome.1 ≡ acquired total base

  pub run_of_room :
      (r : Result Status (ℕ × ℕ))
      → admit parser plan source base extra_pages ≡ r
      → outcome ≡ with_room parser machine plan source base r
  unfolding load_at
  run_of_room r h = ap (with_room parser machine plan source base) h

  pub run_of_pages :
      (arena total : ℕ) (a : Result Status ℕ)
      → admit parser plan source base extra_pages ≡ ok (arena, total)
      → machine.allocate base (total / parser.page_size) ≡ a
      → outcome ≡ with_allocation parser machine plan source base arena total a
  run_of_pages arena total a h k =
      run_of_room (ok (arena, total)) h
      ∙ ap (with_allocation parser machine plan source base arena total) k

  -- What `load_at` went through, if it loaded.
  pub load_at_ok :
      (l : Loaded)
      → outcome.0 ≡ ok l
      → (arena : ℕ) × (total : ℕ) × (written : List ℕ) × (admit parser plan source base extra_pages
          ≡ ok (arena, total))
        × (machine.allocate base (total / parser.page_size) ≡ ok base)
        × (copy_segments source.bytes plan.segments (some (replicate total 0)) ≡ some written)
        × (check_segments base 0 source.bytes plan.segments (machine.readback written) ≡ some true)
        × (l ≡ owner arena total base (machine.readback written))
        × (outcome.1 ≡ acquired total base)
  load_at_ok l h = elim (Result-cases (admit parser plan source base extra_pages)) [
    | inr (e, refused) ↦
        let run = run_of_room (err e) refused in
        let no : err (fails e) ≡ ok l = ap (λ r. r.0) (sym run) ∙ h in cc
    | inl ((arena, total), admitted) ↦
        elim (Result-cases (machine.allocate base (total / parser.page_size))) [
          | inr (e, refused) ↦
              let run = run_of_pages arena total (err e) admitted refused in
              let no : err (fails e) ≡ ok l = ap (λ r. r.0) (sym run) ∙ h in cc
          | inl (allocation, given) ↦
              let run = run_of_pages arena total (ok allocation) admitted given in
              let (written, placed, copied, passed, same, calls) =
                with_pages_ok arena total allocation l (ap (λ r. r.0) (sym run) ∙ h) in
              (
                arena,
                total,
                written,
                admitted,
                given ∙ ap ok placed,
                copied,
                subst
                    (λ b.
                      check_segments b 0 source.bytes plan.segments (machine.readback written)
                      ≡ some true)
                    placed passed,
                same ∙ ap (λ b. owner arena total b (machine.readback written)) placed,
                ap (λ r. r.1) run ∙ calls ∙ ap (acquired total) placed,
              )
        ]
  ]

  -- A kernel that `load_at` answers stands where it was asked for, on whole pages below 4 GiB and apart
  -- from its source, by the plan that the parser makes of the source; the segments are in order and
  -- within the file and the allocation; and the memory read back is zero but for their bytes of the
  -- file. This holds of any memory that keeps its size and holds bytes.
  pub load_at-IsLoaded :
      All IsByte source.bytes
      → ((m : List ℕ) → length (machine.readback m) ≡ length m)
      → ((m : List ℕ) → All IsByte (machine.readback m))
      → (l : Loaded) → outcome.0 ≡ ok l
      → IsLoaded l
  load_at-IsLoaded bytes keeps reads l h =
      let (arena, total, written, admitted, given, copied, passed, same, calls) = load_at_ok l h in
      let memory = machine.readback written in
      let size : length memory ≡ total =
        keeps written
        ∙ copy_segments-length source.bytes (replicate total 0) written plan.segments copied
        ∙ length-replicate total 0 in
      let (laid, image) =
        (check_segments_iff base memory source.bytes (reads written) bytes 0 plan.segments).0
          passed in
      let held : l.memory ≡ memory = ap (λ k. k.memory) same in
      record {
        arena = arena;
        total = total;
        admitted = admit-IsAdmitted arena total admitted;
        owned = same ∙ ap (owner arena total base) (sym held);
        allocated_at = given;
        laid_out = subst (λ n. IsLaidOut (length source.bytes) 0 n plan.segments) size laid;
        image = held ∙ image ∙ ap (λ n. image_of source.bytes 0 n plan.segments) size;
        log = calls;
      }
