-- ===== src/Hal/Walk.antt =====
-- src/hal_tables.rs: the tables that the walk dumps, wherever it stops.
use nextcore_efi.Common.{
  ◌<◌, All, List, Result, [], ap, arith, err, inl, inr, length, ok, refl, subst, suc, sym, ℕ, ◌*◌,
  ◌+◌, ◌∙◌, ◌∷◌, ◌≡◌, ◌≤◌, ◌⊎◌,
}
use nextcore_efi.Status.{Status}
use nextcore_efi.Hal.{
  Machine, bytes_at, phys_copy, le_field, Rsdp, Table, given, read_tables, Root, read_root,
  entry_size_of, entry_count, walk_entries, walk_root, walk_pointer, walk_tables,
}
use nextcore_efi.Hal.Tables.{length_at, IsDumped, dumped, IsNamed, read_tables-IsNamed}
use nextcore_efi.Hal.Complete.{IsServed, read_tables-IsServed}
use nextcore_efi.Hal.Laws.{phys_copy_iff}
use nextcore_efi.Hal.Roots.{
  root_at, entry_bytes, IsRoot, read_root-IsRoot, entry_count-whole, four_or_eight,
}

-- What a walk dumps, wherever it stops: nothing; the pointer alone; the pointer and the root; or these
-- and tables that entries of the root name, which fill it.
pub data IsWalk (machine : Machine) (rsdp : Rsdp) : List Table → Type 0 where
  nothing : IsWalk machine rsdp []
  pointer : (p : Table) → IsDumped machine rsdp.address rsdp.bytes p → IsWalk machine rsdp (p ∷ [])
  both :
      (p root : Table)
      → IsDumped machine rsdp.address rsdp.bytes p
      → IsDumped machine (root_at rsdp) (length_at machine (root_at rsdp)) root
      → IsWalk machine rsdp (p ∷ root ∷ [])
  tables :
      (p root : Table) (ts : List Table) (count : ℕ)
      → IsDumped machine rsdp.address rsdp.bytes p
      → IsDumped machine (root_at rsdp) (length_at machine (root_at rsdp)) root
      → 36 + count * entry_bytes rsdp ≡ length_at machine (root_at rsdp)
      → count ≤ 32
      → length ts ≤ count
      → All (IsNamed machine root.contents (entry_bytes rsdp) 0 count) ts
      → IsWalk machine rsdp (p ∷ root ∷ ts)

root-IsDumped :
    (machine : Machine) (rsdp : Rsdp) (root : Root)
    → IsRoot machine rsdp root
    → IsDumped machine
        (root_at rsdp)
        (length_at machine (root_at rsdp))
        (record { address = root.address; contents = root.contents })
root-IsDumped machine rsdp root i =
    subst
      (λ n.
        IsDumped machine (root_at rsdp) n
          (record { address = root.address; contents = root.contents }))
      i.len
      (subst
        (λ a.
          IsDumped machine (root_at rsdp) root.len
            (record { address = a; contents = root.contents }))
        (sym i.at) (dumped machine (root_at rsdp) root.len root.contents i.read))

-- The walk behind the dumps of the pointer and the root.
entries-IsWalk :
    (machine : Machine) (rsdp : Rsdp) (root : Root) (p : Table) (r : Result Status ℕ)
    → IsDumped machine rsdp.address rsdp.bytes p
    → IsRoot machine rsdp root
    → entry_count root ≡ r
    → IsWalk machine rsdp (
        p
        ∷ record { address = root.address; contents = root.contents }
        ∷ (given r (read_tables machine root.contents (entry_size_of root) 36)).1)
entries-IsWalk machine rsdp root p (err e') d i e =
    both p (record { address = root.address; contents = root.contents }) d
      (root-IsDumped machine rsdp root i)
entries-IsWalk machine rsdp root p (ok count) d i e =
    let (whole, few) =
      entry_count-whole root count (entry_bytes rsdp) i.size (four_or_eight rsdp) i.long e in
    let (sound, short) =
      read_tables-IsNamed machine root.contents (entry_size_of root) 0 count 36 count (omega arith)
        (omega arith) in
    tables p (record { address = root.address; contents = root.contents })
      (read_tables machine root.contents (entry_size_of root) 36 count).1 count d
      (root-IsDumped machine rsdp root i) (whole ∙ i.len) few short
      (subst
        (λ n.
          All (IsNamed machine root.contents n 0 count)
            (read_tables machine root.contents (entry_size_of root) 36 count).1)
        i.size sound)

pointer-IsWalk :
    (machine : Machine) (rsdp : Rsdp) (p : Table) (r : Result Status Root)
    → IsDumped machine rsdp.address rsdp.bytes p
    → read_root machine rsdp ≡ r
    → IsWalk machine rsdp (p ∷ (given r (walk_root machine)).1)
unfolding walk_entries
pointer-IsWalk machine rsdp p (err e) d h = pointer p d
pointer-IsWalk machine rsdp p (ok root) d h =
    entries-IsWalk machine rsdp root p (entry_count root) d (read_root-IsRoot machine rsdp root h)
      refl

walk-IsWalk :
    (machine : Machine) (rsdp : Rsdp) (r : Result Status (List ℕ))
    → phys_copy machine rsdp.address rsdp.bytes ≡ r
    → IsWalk machine rsdp (given r (walk_pointer machine rsdp)).1
walk-IsWalk machine rsdp (err e) h = nothing
walk-IsWalk machine rsdp (ok bytes) h =
    pointer-IsWalk machine rsdp (record { address = rsdp.address; contents = bytes })
      (read_root machine rsdp) (dumped machine rsdp.address rsdp.bytes bytes h) refl

-- Behind a success every entry of the root names an address, and each readable table there is dumped.
abbrev pub IsFull : Machine → Rsdp → List Table → Type 0
IsFull machine rsdp ts =
    let size = entry_bytes rsdp in
    let len = length_at machine (root_at rsdp) in
    (i : ℕ)
    → 36 + suc i * size ≤ len
    → IsServed machine ts
        (le_field (bytes_at machine.memory (root_at rsdp) len) (36 + i * size) size)

below :
    (size len count i : ℕ)
    → (size ≡ 4) ⊎ (size ≡ 8)
    → 36 + count * size ≡ len
    → 36 + suc i * size ≤ len
    → i < count
below size len count i (inl e) whole h =
    omega (arith, subst (λ n. 36 + count * n ≡ len) e whole, subst (λ n. 36 + suc i * n ≤ len) e h)
below size len count i (inr e) whole h =
    omega (arith, subst (λ n. 36 + count * n ≡ len) e whole, subst (λ n. 36 + suc i * n ≤ len) e h)

entries-IsFull :
    (machine : Machine) (rsdp : Rsdp) (root : Root) (p q : Table) (r : Result Status ℕ)
    → IsRoot machine rsdp root
    → entry_count root ≡ r
    → let d = given r (read_tables machine root.contents (entry_size_of root) 36) in
      d.0 ≡ ok tt → IsFull machine rsdp (p ∷ q ∷ d.1)
entries-IsFull machine rsdp root p q (err e) i c h = absurd (cc)
entries-IsFull machine rsdp root p q (ok count) i c h = λ j inside.
    let (whole, few) =
      entry_count-whole root count (entry_bytes rsdp) i.size (four_or_eight rsdp) i.long c in
    let len = length_at machine (root_at rsdp) in
    let there : root.contents ≡ bytes_at machine.memory (root_at rsdp) len =
      ((phys_copy_iff machine (root_at rsdp) root.len root.contents).0 i.read).1
      ∙ ap (bytes_at machine.memory (root_at rsdp)) i.len in
    let run = read_tables machine root.contents (entry_size_of root) 36 count in
    let (nonzero, listed) =
      subst (λ n. IsServed machine run.1 (le_field root.contents (36 + j * n) n)) i.size
        (read_tables-IsServed machine root.contents (entry_size_of root) 36 count j h
          (below (entry_bytes rsdp) len count j (four_or_eight rsdp) (whole ∙ i.len) inside)) in
    subst
      (λ bs.
        IsServed machine (p ∷ q ∷ run.1)
          (le_field bs (36 + j * entry_bytes rsdp) (entry_bytes rsdp)))
      there (nonzero, λ readable. inr (inr (listed readable)))

pointer-IsFull :
    (machine : Machine) (rsdp : Rsdp) (p : Table) (r : Result Status Root)
    → read_root machine rsdp ≡ r
    → (given r (walk_root machine)).0 ≡ ok tt
    → IsFull machine rsdp (p ∷ (given r (walk_root machine)).1)
unfolding walk_entries
pointer-IsFull machine rsdp p (err e) c h = absurd (cc)
pointer-IsFull machine rsdp p (ok root) c h =
    entries-IsFull machine rsdp root p (record { address = root.address; contents = root.contents })
      (entry_count root) (read_root-IsRoot machine rsdp root c) refl h

walk-IsFull :
    (machine : Machine) (rsdp : Rsdp) (r : Result Status (List ℕ))
    → (given r (walk_pointer machine rsdp)).0 ≡ ok tt
    → IsFull machine rsdp (given r (walk_pointer machine rsdp)).1
walk-IsFull machine rsdp (err e) h = absurd (cc)
walk-IsFull machine rsdp (ok bytes) h =
    pointer-IsFull machine rsdp (record { address = rsdp.address; contents = bytes })
      (read_root machine rsdp) refl h

-- Wherever the walk stops, with success or an error, it has dumped nothing, or the bytes of the root
-- pointer, or these and the root table that the pointer names, or these and at most 32 tables, each named
-- by an entry of the root, whose entries have 8 bytes in an XSDT and 4 in an RSDT. Each is whole in one
-- descriptor of ACPI memory, has the length that the pointer or its header names, and the bytes that are
-- there. Behind a success no entry of the root is 0, and each table that an entry names is dumped if it
-- and its header are whole in ACPI memory and it has 36 to 16384 bytes.
pub walk_tables-IsWalk :
    (machine : Machine) (rsdp : Rsdp)
    → let (result, ts) = walk_tables machine rsdp in
      IsWalk machine rsdp ts × (result ≡ ok tt → IsFull machine rsdp ts)
unfolding walk_tables
walk_tables-IsWalk machine rsdp =
    let pointer_bytes = phys_copy machine rsdp.address rsdp.bytes in
    (walk-IsWalk machine rsdp pointer_bytes refl, λ h. walk-IsFull machine rsdp pointer_bytes h)
