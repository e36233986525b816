-- ===== src/Memory/ArmPages/Laws.antt =====
-- src/arm_pages.rs: what an owner of pages relies on, and the calls on every path.
use nextcore_efi.Common.{
  >>=-eq-ok, All, List, Option, Result, Result-cases, [], ap, arith, err, inl, inr, map, ok, some,
  subst, sym, ℕ, ◌%◌, ◌*◌, ◌++◌, ◌+◌, ◌<◌, ◌^◌, ◌∙◌, ◌∷◌, ◌≡◌, ◌≤◌,
}
use nextcore_efi.Status.{Status}
use nextcore_efi.Memory.Descriptor.{page_size}
use nextcore_efi.Memory.Coverage.Exact.{IsExact, validate_entries_ok}
use nextcore_efi.Memory.Coverage.Tally.{IsFairArm}
use nextcore_efi.Memory.Coverage.{validate_entries}
use nextcore_efi.Memory.Calls.{Block, Call, allocates, zeroes, allocated, freed, MemoryMap}
use nextcore_efi.Memory.ArmPages.{
  ArmPages, page_request, validate_map, place, settle, allocate_kind, drop_pages,
}

-- The usable range is aligned, inside the allocation, and of the size asked for.
pub record IsPlaced (bytes : ℕ) (fixed : Option ℕ) (memory_type : ℕ) (p : ArmPages) : Type 0 where
  pub size : p.bytes ≡ bytes
  pub kind : p.memory_type ≡ memory_type
  pub aligned : p.base % 16384 ≡ 0
  pub after_start : p.original ≤ p.base
  pub inside : p.base + p.bytes ≤ p.original + p.count * page_size
  pub at_fixed : (b : ℕ) → fixed ≡ some b → p.base ≡ b

place-IsPlaced :
    (bytes count : ℕ) (fixed : Option ℕ) (memory_type start : ℕ) (p : ArmPages)
    → place bytes count fixed memory_type start ≡ ok p
    → IsPlaced bytes fixed memory_type p × (p.original ≡ start) × (p.count ≡ count)
unfolding place
place-IsPlaced bytes count fixed memory_type start p e = ground arith

-- The map that the owner was checked against gives its range to it alone.
pub record IsOwned (p : ArmPages) (m : MemoryMap) : Type 0 where
  pub ends : p.base + p.bytes < 2 ^ 64
  pub fair : All (IsFairArm p.base (p.base + p.bytes) p.memory_type) m.entries
  pub exact : IsExact m.entries p.base p.bytes
  pub version : m.desc_version ≡ 1

validate_map_ok :
    (descriptor_size : ℕ) (p : ArmPages) (m : MemoryMap)
    → validate_map descriptor_size p m ≡ ok tt
    → (validate_entries m.entries p.base p.bytes p.memory_type ≡ ok tt) × (m.desc_version ≡ 1)
unfolding validate_map
validate_map_ok descriptor_size p m e = ground arith

validate_map-IsOwned :
    (descriptor_size : ℕ) (p : ArmPages) (m : MemoryMap)
    → validate_map descriptor_size p m ≡ ok tt
    → IsOwned p m
validate_map-IsOwned descriptor_size p m e =
    let (v, version) = validate_map_ok descriptor_size p m e in
    let (ends, fair, exact) = validate_entries_ok m.entries p.base p.bytes p.memory_type v in
    record { ends = ends; fair = fair; exact = exact; version = version }

settle-IsOwned :
    (descriptor_size bytes count : ℕ) (fixed : Option ℕ) (memory_type start : ℕ)
    (map : Result Status MemoryMap) (p : ArmPages)
    → settle descriptor_size bytes count fixed memory_type start map ≡ ok p
    → IsPlaced bytes fixed memory_type p
      × (p.original ≡ start)
      × (p.count ≡ count)
      × ((m : MemoryMap) × (map ≡ ok m) × IsOwned p m)
unfolding settle
settle-IsOwned descriptor_size bytes count fixed memory_type start map p e =
    let (owner, placed, r) = >>=-eq-ok (place bytes count fixed memory_type start) _ e in
    let (m, answered, r') = >>=-eq-ok map _ r in
    let (_, checked, same) = >>=-eq-ok (validate_map descriptor_size owner m) _ r' in
    let own : owner ≡ p = ground arith in
    let (a, b, c) = place-IsPlaced bytes count fixed memory_type start p (placed ∙ ap ok own) in
    (
      a,
      b,
      c,
      (
        m,
        answered,
        subst (λ o. IsOwned o m) own (validate_map-IsOwned descriptor_size owner m checked),
      ),
    )

module _ (descriptor_size : ℕ) (allocate : ℕ → Option ℕ → ℕ → Result Status ℕ)
    (map : Result Status MemoryMap) (bytes : ℕ) (fixed : Option ℕ) (memory_type : ℕ) where
  abbrev outcome : Result Status ArmPages × List Call
  outcome = allocate_kind descriptor_size allocate map bytes fixed memory_type

  -- When `allocate_kind` succeeds, the usable range has the size asked for, is 16 KiB aligned, lies
  -- inside the allocated pages and at the fixed address if one was asked for; the memory map that the
  -- firmware reported gives every byte of it to exactly one descriptor, of the owner's type; and the
  -- pages were allocated and the whole range filled with zeros.
  pub allocate_kind-IsOwned :
      (p : ArmPages)
      → outcome.0 ≡ ok p
      → IsPlaced bytes fixed memory_type p
        × ((m : MemoryMap) × (map ≡ ok m) × IsOwned p m)
        × (outcome.1 ≡ allocates p.original p.count ∷ zeroes p.base p.bytes ∷ [])
  unfolding allocate_kind
  allocate_kind-IsOwned p e = elim (Result-cases (page_request bytes fixed)) [
    | inr (s, q) ↦ absurd (ground arith)
    | inl (count, q) ↦ elim (Result-cases (allocate count fixed memory_type)) [
      | inr (s, a) ↦ absurd (ground arith)
      | inl (start, a) ↦
          elim (Result-cases (settle descriptor_size bytes count fixed memory_type start map)) [
            | inr (s, t) ↦ absurd (ground arith)
            | inl (owner, t) ↦
                let own : owner ≡ p = ground arith in
                let (placed, o, c, owned) =
                  settle-IsOwned descriptor_size bytes count fixed memory_type start map p
                    (t ∙ ap ok own) in
                (placed, owned, ground (arith, placed.size))
          ]
    ]
  ]

  -- Whatever the firmware answers, a failing `allocate_kind` has freed each block of pages, with its
  -- number of pages, as often as it allocated it; after a success no such block is freed yet, and behind
  -- the drop of the owner each is freed as often as it was allocated.
  pub allocate_kind_balanced :
      (q : Block)
      → ((s : Status) → outcome.0 ≡ err s → allocated q outcome.1 ≡ freed q outcome.1)
        × ((p : ArmPages)
            → outcome.0 ≡ ok p
            → (freed q outcome.1 ≡ 0)
              × (allocated q (outcome.1 ++ drop_pages p) ≡ freed q (outcome.1 ++ drop_pages p)))
  unfolding allocate_kind allocated freed drop_pages
  allocate_kind_balanced q = (
    λ s e. ground arith,
    λ p e.
        let log = (allocate_kind-IsOwned p e).2 in
        (
          ap (freed q) log,
          ap (λ l. allocated q (l ++ drop_pages p)) log
              ∙ ground arith
              ∙ ap (λ l. freed q (l ++ drop_pages p)) (sym log),
        ),
  )
