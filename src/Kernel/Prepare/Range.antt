-- ===== src/Kernel/Prepare/Range.antt =====
-- Where `load_at` of src/loaded_kernel.rs writes, for the profile of src/kernel.rs.
use nextcore_efi.Common.{
  ==_iff, All, All-append, Bool, Bool-cases, List, Option, Result, [], arith, err, false, inl, inr,
  none, ok, refl, replicate, some, true, ℕ, ◌+◌, ◌/◌, ◌==◌, ◌∷◌, ◌≡◌, ◌≤◌,
}
use nextcore_efi.Status.{Status}
use nextcore_efi.Memory.Calls.{Call, allocates, frees, zeroes}
use nextcore_efi.Kernel.Load.{
  Plan, Parser, Source, Machine, Loaded, copy_segments, check_segments, with_check, with_copy,
  with_pages, with_allocation, with_room,
}

-- A fill with zeros stays in front of a limit.
abbrev pub StaysBelow : (low limit : ℕ) → Call → Type 0
StaysBelow low limit (zeroes p n) = (low ≤ p) × (p + n ≤ limit)
StaysBelow low limit call = Unit {0}

module _ (low limit : ℕ) where
  check-StaysBelow :
      (loaded : Loaded) (log : List Call) (base pages : ℕ) (o : Option Bool)
      → All (StaysBelow low limit) log
      → All (StaysBelow low limit) (with_check loaded log (frees base pages) o).1
  check-StaysBelow loaded log base pages none h = h
  check-StaysBelow loaded log base pages (some true) h = h
  check-StaysBelow loaded log base pages (some false) h =
      All-append (StaysBelow low limit) log (frees base pages ∷ []) h (tt, tt)

  copy-StaysBelow :
      (machine : Machine) (plan : Plan) (source : List ℕ) (loaded : Loaded) (log : List Call)
      (base pages : ℕ) (o : Option (List ℕ))
      → All (StaysBelow low limit) log
      → All (StaysBelow low limit) (with_copy machine plan source loaded log (frees base pages) o).1
  copy-StaysBelow machine plan source loaded log base pages none h = h
  copy-StaysBelow machine plan source loaded log base pages (some written) h =
      check-StaysBelow (record loaded { memory = machine.readback written }) log base pages
        (check_segments loaded.allocation 0 source plan.segments (machine.readback written)) h

  pages-StaysBelow :
      (machine : Machine) (plan : Plan) (source : Source) (base total : ℕ) (loaded : Loaded)
      → low ≤ base
      → base + total ≤ limit
      → All (StaysBelow low limit) (with_pages machine plan source base total loaded).1
  pages-StaysBelow machine plan source base total loaded h k =
      elim (Bool-cases (loaded.allocation == base)) [
        | inr elsewhere ↦ rw elsewhere (tt, (tt, tt))
        | inl placed ↦
            let same = (==_iff loaded.allocation base).0 placed in
            rw placed (
              copy-StaysBelow machine plan source.bytes loaded
                (allocates loaded.allocation loaded.pages ∷ zeroes loaded.allocation total ∷ [])
                loaded.allocation loaded.pages
                (copy_segments source.bytes plan.segments (some (replicate total 0)))
                (tt, ((omega (arith, same, h), omega (arith, same, k)), tt)))
      ]

  allocation-StaysBelow :
      (parser : Parser) (machine : Machine) (plan : Plan) (source : Source) (base arena total : ℕ)
      (a : Result Status ℕ)
      → low ≤ base
      → base + total ≤ limit
      → All (StaysBelow low limit) (with_allocation parser machine plan source base arena total a).1
  allocation-StaysBelow parser machine plan source base arena total (err e) h k = tt
  allocation-StaysBelow parser machine plan source base arena total (ok allocation) h k =
      pages-StaysBelow machine plan source base total
        (record {
          allocation = allocation;
          pages = total / parser.page_size;
          image_size = plan.image_size;
          arena_size = arena;
          entry_offset = plan.entry_offset;
          memory = replicate total 0;
        })
        h k

  pub room-StaysBelow :
      (parser : Parser) (machine : Machine) (plan : Plan) (source : Source) (base : ℕ)
      (r : Result Status (ℕ × ℕ))
      → low ≤ base
      → ((arena total : ℕ) → r ≡ ok (arena, total) → base + total ≤ limit)
      → All (StaysBelow low limit) (with_room parser machine plan source base r).1
  room-StaysBelow parser machine plan source base (err e) h k = tt
  room-StaysBelow parser machine plan source base (ok (arena, total)) h k =
      allocation-StaysBelow parser machine plan source base arena total
        (machine.allocate base (total / parser.page_size)) h (k arena total refl)
