-- ===== src/Hal/Laws.antt =====
-- src/hal_tables.rs: the copy against the memory map.
use nextcore_efi.Common.{
  >>=-eq-ok, Bool, Bool-cases, List, [], any, ap, arith, checked_add, false, inl, inr, ltb, lt→ltb,
  max, not, ok, ok_or, refl, refuse, subst, sym, true, ℕ, ◌*◌, ◌+◌, ◌<◌, ◌==◌, ◌^◌, ◌||◌, ◌↔◌, ◌∙◌,
  ◌∷◌, ◌≡◌, ◌≤◌, ◌⊎◌,
}
use nextcore_efi.Status.{Status, not_found, bad_buffer_size, invalid_parameter, access_denied}
use nextcore_efi.Memory.Descriptor.{Descriptor, acpi_reclaim, acpi_non_volatile}
use nextcore_efi.Hal.{max_table_bytes, max_xsdt_bytes, Machine, bytes_at, acpi_covers, phys_copy}

-- A descriptor of ACPI memory, without overflow, that holds a whole range.
abbrev pub IsHolder : ℕ → ℕ → Descriptor → Type 0
IsHolder phys end d =
    ((d.ty ≡ acpi_reclaim) ⊎ (d.ty ≡ acpi_non_volatile))
    × (d.phys_start ≤ phys)
    × (end ≤ d.phys_start + d.page_count * 4096)
    × (d.phys_start + d.page_count * 4096 < 2 ^ 64)

abbrev pub Held : ℕ → ℕ → List Descriptor → Type 0
Held phys end [] = ⊥
Held phys end (d ∷ ds) = IsHolder phys end d ⊎ Held phys end ds

-- A range that an ACPI descriptor of the map holds whole.
pub record IsAcpi (machine : Machine) (phys len : ℕ) : Type 0 where
  pub nonzero : 0 < phys
  pub some_bytes : 0 < len
  pub short : len ≤ 16384
  pub low : phys + len ≤ 2 ^ 32
  pub entries : List Descriptor
  pub reported : machine.map ≡ ok entries
  pub held : Held phys (phys + len) entries

acpi_covers→IsHolder :
    (phys end : ℕ) (d : Descriptor) → acpi_covers phys end d ≡ true → IsHolder phys end d
acpi_covers→IsHolder phys end d h = ground arith

IsHolder→acpi_covers :
    (phys end : ℕ) (d : Descriptor) → IsHolder phys end d → acpi_covers phys end d ≡ true
IsHolder→acpi_covers phys end d h = ground arith

any→Held :
    (phys end : ℕ) (ds : List Descriptor) → any (acpi_covers phys end) ds ≡ true → Held phys end ds
any→Held phys end [] h = cc
any→Held phys end (d ∷ ds) h = elim (Bool-cases (acpi_covers phys end d)) [
  | inl here ↦ inl (acpi_covers→IsHolder phys end d here)
  | inr other ↦
      inr (any→Held phys end ds (subst (λ b. (b || any (acpi_covers phys end) ds) ≡ true) other h))
]

Held→any :
    (phys end : ℕ) (ds : List Descriptor) → Held phys end ds → any (acpi_covers phys end) ds ≡ true
Held→any phys end [] h = absurd h
Held→any phys end (d ∷ ds) (inl here) = rw (IsHolder→acpi_covers phys end d here) refl
Held→any phys end (d ∷ ds) (inr later) = elim (Bool-cases (acpi_covers phys end d)) [
  | inl here ↦ rw here refl
  | inr other ↦ rw other (Held→any phys end ds later)
]

pub refused : (b : Bool) (e : Status) {u : Unit {0}} → refuse b e ≡ ok u → b ≡ false
refused false e h = refl
refused true e h = cc

sum_end : (a b : ℕ) {end : ℕ} → ok_or (checked_add a b) invalid_parameter ≡ ok end → end ≡ a + b
sum_end a b h = ground arith

refused_not : (b : Bool) (e : Status) {u : Unit {0}} → refuse (not b) e ≡ ok u → b ≡ true
refused_not true e h = refl
refused_not false e h = cc

phys_copy→IsAcpi :
    (machine : Machine) (phys len : ℕ) (bytes : List ℕ)
    → phys_copy machine phys len ≡ ok bytes
    → IsAcpi machine phys len × (bytes ≡ bytes_at machine.memory phys len)
unfolding phys_copy
phys_copy→IsAcpi machine phys len bytes h =
    let (_, r1, h1) = >>=-eq-ok (refuse (phys == 0) not_found) _ h in
    let (_, r2, h2) =
      >>=-eq-ok (refuse (len == 0 || ltb (max max_table_bytes max_xsdt_bytes) len) bad_buffer_size)
        _ h1 in
    let (end, r3, h3) = >>=-eq-ok (ok_or (checked_add phys len) invalid_parameter) _ h2 in
    let (_, r4, h4) = >>=-eq-ok (refuse (ltb 0x100000000 end) invalid_parameter) _ h3 in
    let (ds, r5, h5) = >>=-eq-ok machine.map _ h4 in
    let (_, r6, h6) = >>=-eq-ok (refuse (not (any (acpi_covers phys end) ds)) access_denied) _ h5 in
    let at : end ≡ phys + len = sum_end phys len r3 in
    let s1 = refused (phys == 0) not_found r1 in
    let s2 =
      refused (len == 0 || ltb (max max_table_bytes max_xsdt_bytes) len) bad_buffer_size r2 in
    let s4 = refused (ltb 0x100000000 end) invalid_parameter r4 in
    let s6 = refused_not (any (acpi_covers phys end) ds) access_denied r6 in
    (
      record {
        nonzero = ground (arith, s1);
        some_bytes = ground (arith, s2);
        short = ground (arith, s2);
        low = ground (arith, s4, at);
        entries = ds;
        reported = r5;
        held = subst (λ n. Held phys n ds) at (any→Held phys end ds s6);
      },
      cc,
    )

IsAcpi→phys_copy :
    (machine : Machine) (phys len : ℕ)
    → IsAcpi machine phys len
    → phys_copy machine phys len ≡ ok (bytes_at machine.memory phys len)
unfolding phys_copy
IsAcpi→phys_copy machine phys len a =
    let e1 : (phys == 0) ≡ false = ground (arith, a.nonzero) in
    let e2 : (len == 0 || ltb (max max_table_bytes max_xsdt_bytes) len) ≡ false =
      ground (arith, a.some_bytes, a.short) in
    let e3 : ltb (phys + len) (2 ^ 64) ≡ true =
      lt→ltb (phys + len) (2 ^ 64) (omega (arith, a.low)) in
    let e4 : ltb 0x100000000 (phys + len) ≡ false = ground (arith, a.low) in
    rw (e1, e2, e3, e4, a.reported, Held→any phys (phys + len) a.entries a.held) refl

-- A copy succeeds exactly for a range of 1 to 16384 bytes that does not start at 0, ends at 4 GiB at
-- most, and lies whole in one descriptor of ACPI memory of the firmware's map; it answers the bytes
-- that are there.
pub phys_copy_iff :
    (machine : Machine) (phys len : ℕ) (bytes : List ℕ)
    → (phys_copy machine phys len ≡ ok bytes)
      ↔ (IsAcpi machine phys len × (bytes ≡ bytes_at machine.memory phys len))
phys_copy_iff machine phys len bytes = (
  phys_copy→IsAcpi machine phys len bytes,
  λ (a, e). IsAcpi→phys_copy machine phys len a ∙ ap ok (sym e),
)
