-- ===== src/Hal/Tables.antt =====
-- src/hal_tables.rs: the tables that the entries of a root table name.
use nextcore_efi.Common.{
  All, Bool-cases, List, Option, Result, [], ap, arith, err, false, if◌then◌else◌, inl, inr, length,
  ltb, none, ok, refl, some, subst, suc, sym, zero, ℕ, ◌*◌, ◌+◌, ◌<◌, ◌==◌, ◌||◌, ◌∙◌, ◌∷◌, ◌≡◌,
  ◌≢◌, ◌≤◌,
}
use nextcore_efi.Status.{Status}
use nextcore_efi.Hal.{
  Machine, bytes_at, phys_copy, le_field, max_table_bytes, Table, table_of, table_behind,
  read_table, Dump, dumps, read_tables,
}
use nextcore_efi.Hal.Laws.{IsAcpi, phys_copy_iff}

-- The length that the header of a table at an address names.
abbrev pub length_at : Machine → ℕ → ℕ
length_at machine address = le_field (bytes_at machine.memory address 36) 4 4

-- A dumped table: whole in ACPI memory, with the bytes that are there.
pub record IsDumped (machine : Machine) (address size : ℕ) (t : Table) : Type 0 where
  pub at : t.address ≡ address
  pub acpi : IsAcpi machine address size
  pub contents : t.contents ≡ bytes_at machine.memory address size

pub dumped :
    (machine : Machine) (address len : ℕ) (bytes : List ℕ)
    → phys_copy machine address len ≡ ok bytes
    → IsDumped machine address len (record { address = address; contents = bytes })
dumped machine address len bytes h =
    let (a, e) = (phys_copy_iff machine address len bytes).0 h in
    record { at = refl; acpi = a; contents = e }

table_of-IsDumped :
    (machine : Machine) (address len : ℕ) (r : Result Status (List ℕ)) (t : Table)
    → phys_copy machine address len ≡ r
    → table_of address r ≡ some t
    → IsDumped machine address len t
table_of-IsDumped machine address len (err e) t h k = cc
table_of-IsDumped machine address len (ok bytes) t h k =
    let same : record { address = address; contents = bytes } ≡ t = cc in
    subst (IsDumped machine address len) same (dumped machine address len bytes h)

-- A table that the walk reads has the length that its header names, 36 to 16384 bytes.
abbrev IsTable : Machine → ℕ → Table → Type 0
IsTable machine address t =
    (36 ≤ length_at machine address)
    × (length_at machine address ≤ 16384)
    × IsDumped machine address (length_at machine address) t

table_behind-IsTable :
    (machine : Machine) (address : ℕ) (r : Result Status (List ℕ)) (t : Table)
    → phys_copy machine address 36 ≡ r
    → table_behind machine address r ≡ some t
    → IsTable machine address t
table_behind-IsTable machine address (err e) t w h = cc
table_behind-IsTable machine address (ok hdr) t w h =
    let len = le_field hdr 4 4 in
    let there = ((phys_copy_iff machine address 36 hdr).0 w).1 in
    let named : len ≡ length_at machine address = ap (λ b. le_field b 4 4) there in
    elim (Bool-cases (ltb len 36 || ltb max_table_bytes len)) [
      | inl bad ↦ absurd (
          subst
            (λ b.
              (if b then none else table_of address (phys_copy machine address len)) ≡ some t → ⊥)
            (sym bad) (λ k. cc) h)
      | inr good ↦
          let (low, high) = in_bounds len good in
          subst (λ n. (36 ≤ n) × (n ≤ 16384) × IsDumped machine address n t) named
            (
              low,
              high,
              table_of-IsDumped machine address len (phys_copy machine address len) t refl (
                  subst
                    (λ b.
                      (if b then none else table_of address (phys_copy machine address len))
                      ≡ some t)
                    good h),
            )
    ]
  where
    in_bounds : (n : ℕ) → (ltb n 36 || ltb max_table_bytes n) ≡ false → (36 ≤ n) × (n ≤ 16384)
    in_bounds n e = ground arith

-- A table that one of the entries from an index on names; an entry has `size` bytes, and the first one
-- stands behind the 36 bytes of the header.
pub record IsNamed (machine : Machine) (root : List ℕ) (size first count : ℕ) (t : Table)
    : Type 0 where
  pub index : ℕ
  pub from : first ≤ index
  pub inside : index < count
  pub nonzero : t.address ≢ 0
  pub named : t.address ≡ le_field root (36 + index * size) size
  pub long : 36 ≤ length_at machine t.address
  pub short : length_at machine t.address ≤ 16384
  pub dumped : IsDumped machine t.address (length_at machine t.address) t

later-IsNamed :
    (machine : Machine) (root : List ℕ) (size first count : ℕ) (ts : List Table)
    → All (IsNamed machine root size (first + 1) count) ts
    → All (IsNamed machine root size first count) ts
later-IsNamed machine root size first count [] h = tt
later-IsNamed machine root size first count (t ∷ ts) h =
    let n = h.0 in
    (
      record {
        index = n.index;
        from = omega (arith, n.from);
        inside = n.inside;
        nonzero = n.nonzero;
        named = n.named;
        long = n.long;
        short = n.short;
        dumped = n.dumped;
      },
      later-IsNamed machine root size first count ts h.1,
    )

first-IsNamed :
    (machine : Machine) (root : List ℕ) (size first count : ℕ) (t : Table)
    → first < count
    → (le_field root (36 + first * size) size == 0) ≡ false
    → IsTable machine (le_field root (36 + first * size) size) t
    → IsNamed machine root size first count t
first-IsNamed machine root size first count t inside there (long, short, d) =
    let field = le_field root (36 + first * size) size in
    let same : t.address ≡ field = d.at in
    record {
      index = first;
      from = omega arith;
      inside = inside;
      nonzero = λ z. let zero_field : field ≡ 0 = sym same ∙ z in ground (arith, there, zero_field);
      named = same;
      long = subst (λ a. 36 ≤ length_at machine a) (sym same) long;
      short = subst (λ a. length_at machine a ≤ 16384) (sym same) short;
      dumped = subst (λ a. IsDumped machine a (length_at machine a) t) (sym same) d;
    }

dumps-IsNamed :
    (machine : Machine) (root : List ℕ) (size first count : ℕ) (o : Option Table) (d : Dump)
    → ((t : Table) → o ≡ some t → IsNamed machine root size first count t)
    → All (IsNamed machine root size first count) d.1
    → All (IsNamed machine root size first count) (dumps o d).1
dumps-IsNamed machine root size first count none d h k = k
dumps-IsNamed machine root size first count (some t) (r, ts) h k = (h t refl, k)

length-dumps : (o : Option Table) (d : Dump) → length (dumps o d).1 ≤ suc (length d.1)
length-dumps none d = omega arith
length-dumps (some t) (r, ts) = omega arith

pub read_tables-IsNamed :
    (machine : Machine) (root : List ℕ) (size first left offset count : ℕ)
    → offset ≡ 36 + first * size
    → first + left ≡ count
    → let d = read_tables machine root size offset left in
      All (IsNamed machine root size first count) d.1 × (length d.1 ≤ left)
unfolding read_tables read_table
read_tables-IsNamed machine root size first zero offset count at total = (tt, omega arith)
read_tables-IsNamed machine root size first (suc left) offset count at total =
    let address = le_field root offset size in
    let rest = read_tables machine root size (offset + size) left in
    elim (Bool-cases (address == 0)) [
      | inl null ↦ rw null (tt, omega arith)
      | inr there ↦
          let next : offset + size ≡ 36 + (first + 1) * size = grind (arith, at) in
          let (sound, short) =
            read_tables-IsNamed machine root size (first + 1) left (offset + size) count next
              (omega (arith, total)) in
          rw there (
            dumps-IsNamed machine root size first count (read_table machine address) rest
                (λ t e.
                  first-IsNamed machine root size first count t (omega (arith, total))
                    (subst (λ o. (le_field root o size == 0) ≡ false) at there)
                    (subst (λ o. IsTable machine (le_field root o size) t) at
                      (table_behind-IsTable machine address (phys_copy machine address 36) t refl
                        e)))
                (later-IsNamed machine root size first count rest.1 sound),
            omega (arith, short, length-dumps (read_table machine address) rest),
          )
    ]
