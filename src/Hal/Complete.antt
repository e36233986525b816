-- ===== src/Hal/Complete.antt =====
-- src/hal_tables.rs: the walk over the entries of a root table leaves no readable table out.
use nextcore_efi.Common.{
  Bool, Bool-cases, List, Option, [], ap, arith, false, if◌then◌else◌, inl, inr, err, ltb, none, ok,
  refl, true, some, subst, suc, sym, zero, ℕ, ◌*◌, ◌+◌, ◌<◌, ◌==◌, ◌||◌, ◌∙◌, ◌∷◌, ◌≡◌, ◌≢◌, ◌≤◌,
  ◌⊎◌,
}
use nextcore_efi.Status.{compromised_data}
use nextcore_efi.Hal.{
  Machine, bytes_at, le_field, max_table_bytes, Table, table_behind, read_table, Dump, dumps,
  read_tables,
}
use nextcore_efi.Hal.Laws.{IsAcpi, phys_copy_iff}
use nextcore_efi.Hal.Tables.{length_at}

-- A table of 36 to 16384 bytes by its header, which is whole in ACPI memory as the header is.
pub record IsReadable (machine : Machine) (address : ℕ) : Type 0 where
  pub header : IsAcpi machine address 36
  pub long : 36 ≤ length_at machine address
  pub short : length_at machine address ≤ 16384
  pub body : IsAcpi machine address (length_at machine address)

abbrev pub Listed : ℕ → List Table → Type 0
Listed address [] = ⊥
Listed address (t ∷ ts) = (t.address ≡ address) ⊎ Listed address ts

-- What is said of an entry that names an address, behind a walk that succeeded.
abbrev pub IsServed : Machine → List Table → ℕ → Type 0
IsServed machine ts address = (address ≢ 0) × (IsReadable machine address → Listed address ts)

fits : (n : ℕ) → 36 ≤ n → n ≤ 16384 → (ltb n 36 || ltb max_table_bytes n) ≡ false
fits n low high = ground arith

read_table-some :
    (machine : Machine) (address : ℕ)
    → IsReadable machine address
    → (t : Table) × (read_table machine address ≡ some t) × (t.address ≡ address)
unfolding read_table
read_table-some machine address r =
    let len = length_at machine address in
    let t : Table = record { address = address; contents = bytes_at machine.memory address len } in
    (
      t,
      ap (table_behind machine address) (
            (phys_copy_iff machine address 36 (bytes_at machine.memory address 36)).1
              (r.header, refl))
          ∙ rw
              (
                fits len r.long r.short,
                (phys_copy_iff machine address len (bytes_at machine.memory address len)).1
                    (r.body, refl),
              )
              refl,
      refl,
    )

dumps-Listed :
    (machine : Machine) (address : ℕ) (d : Dump)
    → IsReadable machine address
    → Listed address (dumps (read_table machine address) d).1
dumps-Listed machine address d r =
    let (t, found, at) = read_table-some machine address r in
    subst (λ o. Listed address (dumps o d).1) (sym found) (inl at)

dumps-later :
    (address : ℕ) (o : Option Table) (d : Dump) → Listed address d.1 → Listed address (dumps o d).1
dumps-later address none d l = l
dumps-later address (some t) (r, ts) l = inr l

dumps-result : (o : Option Table) (d : Dump) → (dumps o d).0 ≡ d.0
dumps-result none d = refl
dumps-result (some t) (r, ts) = refl

-- The first entry, and the ones behind it.
served :
    (machine : Machine) (root : List ℕ) (size offset left i : ℕ) (rest : Dump)
    → (le_field root offset size == 0) ≡ false
    → ((j : ℕ) → j < left → IsServed machine rest.1 (le_field root (offset + size + j * size) size))
    → i < suc left
    → IsServed machine
        (dumps (read_table machine (le_field root offset size)) rest).1
        (le_field root (offset + i * size) size)
served machine root size offset left zero rest there later inside =
    let at : offset ≡ offset + 0 * size = omega arith in
    let address = le_field root offset size in
    let nonzero : address ≢ 0 = λ z. ground (arith, there, z) in
    subst (λ o. IsServed machine (dumps (read_table machine address) rest).1 (le_field root o size))
      at (nonzero, λ r. dumps-Listed machine address rest r)
served machine root size offset left (suc j) rest there later inside =
    let at : offset + size + j * size ≡ offset + suc j * size = grind arith in
    let address = le_field root offset size in
    let (nonzero, listed) = later j (omega arith) in
    subst (λ o. IsServed machine (dumps (read_table machine address) rest).1 (le_field root o size))
      at
      (
        nonzero,
        λ r.
            dumps-later (le_field root (offset + size + j * size) size) (read_table machine address)
              rest (listed r),
      )

-- Behind a success, each entry names an address, and a readable table there is dumped.
pub read_tables-IsServed :
    (machine : Machine) (root : List ℕ) (size offset left i : ℕ)
    → (read_tables machine root size offset left).0 ≡ ok tt
    → i < left
    → IsServed machine
        (read_tables machine root size offset left).1
        (le_field root (offset + i * size) size)
unfolding read_tables
read_tables-IsServed machine root size offset zero i h inside = absurd (omega arith)
read_tables-IsServed machine root size offset (suc left) i h inside =
    let address = le_field root offset size in
    let rest = read_tables machine root size (offset + size) left in
    elim (Bool-cases (address == 0)) [
      | inl null ↦ absurd (failed (address == 0) null h)
      | inr there ↦
          let h' : rest.0 ≡ ok tt =
            sym (dumps-result (read_table machine address) rest)
            ∙ subst
                (λ b.
                  (if b
                    then (err compromised_data, [])
                    else dumps (read_table machine address) rest).0
                  ≡ ok tt)
                there h in
          rw there (
            served machine root size offset left i rest there
              (λ j below. read_tables-IsServed machine root size (offset + size) left j h' below)
              inside)
    ]
  where
    failed :
        (b : Bool)
        → b ≡ true
        → (if b
            then (err compromised_data, [])
            else dumps
                (read_table machine (le_field root offset size))
                (read_tables machine root size (offset + size) left)).0
          ≡ ok tt
        → ⊥
    failed true e k = cc
    failed false e k = cc
