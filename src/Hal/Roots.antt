-- ===== src/Hal/Roots.antt =====
-- src/hal_tables.rs: the root table that a root pointer names.
use nextcore_efi.Common.{
  >>=-eq-ok, Bool, Bool-cases, List, Result, [], ap, arith, false, if◌then◌else◌, inl, inr, ltb,
  not, ok, refl, refuse, subst, sym, true, ℕ, ◌%◌, ◌&&◌, ◌*◌, ◌+◌, ◌-◌, ◌/◌, ◌==◌, ◌||◌, ◌∙◌, ◌∷◌,
  ◌≡◌, ◌≤◌, ◌⊎◌, ◌>>◌,
}
use nextcore_efi.Status.{Status, not_found, bad_buffer_size, load_error, crc_error}
use nextcore_efi.Hal.{
  Machine, phys_copy, le_field, starts, xsdt_sig, rsdt_sig, checksum_zero, max_tables,
  max_xsdt_bytes, Rsdp, Root, read_root, entry_size_of, entry_count,
}
use nextcore_efi.Hal.Laws.{phys_copy_iff, refused}
use nextcore_efi.Hal.Tables.{length_at}

-- What stands in the root table of a pointer: an XSDT of 8 bytes to an entry if it names one, else an
-- RSDT of 4.
abbrev pub root_at : Rsdp → ℕ
root_at rsdp = if rsdp.xsdt == 0 then rsdp.rsdt else rsdp.xsdt

abbrev pub entry_bytes : Rsdp → ℕ
entry_bytes rsdp = if rsdp.xsdt == 0 then 4 else 8

-- The signature of an RSDT is not that of an XSDT.
rsdt-ne-xsdt : (bs : List ℕ) → starts rsdt_sig bs ≡ true → starts xsdt_sig bs ≡ false
rsdt-ne-xsdt [] h = cc
rsdt-ne-xsdt (b ∷ bs) h = elim (Bool-cases (0x52 == b)) [
  | inr other ↦ absurd (ground arith)
  | inl same ↦ ground arith
]

signed :
    (wide : Bool) (hdr : List ℕ)
    → ((wide && not (starts xsdt_sig hdr)) || (not wide && not (starts rsdt_sig hdr))) ≡ false
    → starts xsdt_sig hdr ≡ wide
signed true hdr h = elim (Bool-cases (starts xsdt_sig hdr)) [
  | inl is_xsdt ↦ is_xsdt
  | inr other ↦ absurd (
      subst (λ b. ((true && not b) || (not true && not (starts rsdt_sig hdr))) ≡ false → ⊥)
        (sym other) (λ k. cc) h)
]
signed false hdr h = elim (Bool-cases (starts rsdt_sig hdr)) [
  | inl is_rsdt ↦ rsdt-ne-xsdt hdr is_rsdt
  | inr other ↦ absurd (
      subst (λ b. ((false && not (starts xsdt_sig hdr)) || (not false && not b)) ≡ false → ⊥)
        (sym other) (λ k. cc) h)
]

-- What `read_root` has found.
pub record IsRoot (machine : Machine) (rsdp : Rsdp) (root : Root) : Type 0 where
  pub at : root.address ≡ root_at rsdp
  pub size : entry_size_of root ≡ entry_bytes rsdp
  pub len : root.len ≡ length_at machine (root_at rsdp)
  pub long : 36 ≤ root.len
  pub read : phys_copy machine (root_at rsdp) root.len ≡ ok root.contents

root_of : (rsdp : Rsdp) → (if not (rsdp.xsdt == 0) then rsdp.xsdt else rsdp.rsdt) ≡ root_at rsdp
root_of rsdp = elim (Bool-cases (rsdp.xsdt == 0)) [
  | inl none_such ↦ rw none_such refl
  | inr there ↦ rw there refl
]

size_of :
    (rsdp : Rsdp) (wide : Bool)
    → wide ≡ not (rsdp.xsdt == 0)
    → (if wide then 8 else 4) ≡ entry_bytes rsdp
size_of rsdp wide e = elim (Bool-cases (rsdp.xsdt == 0)) [
  | inl none_such ↦ rw (e, none_such) refl
  | inr there ↦ rw (e, there) refl
]

pub read_root-IsRoot :
    (machine : Machine) (rsdp : Rsdp) (root : Root)
    → read_root machine rsdp ≡ ok root
    → IsRoot machine rsdp root
unfolding read_root
read_root-IsRoot machine rsdp root h =
    let wide = not (rsdp.xsdt == 0) in
    let at = if wide then rsdp.xsdt else rsdp.rsdt in
    let (_, _, h1) = >>=-eq-ok (refuse (at == 0) not_found) _ h in
    let (hdr, r2, h2) = >>=-eq-ok (phys_copy machine at 36) _ h1 in
    let len = le_field hdr 4 4 in
    let (_, r3, h3) = >>=-eq-ok (refuse (ltb len 36 || ltb max_xsdt_bytes len) load_error) _ h2 in
    let (_, r4, h4) =
      >>=-eq-ok
        (refuse ((wide && not (starts xsdt_sig hdr)) || (not wide && not (starts rsdt_sig hdr)))
          load_error)
        _ h3 in
    let (bytes, r5, h5) = >>=-eq-ok (phys_copy machine at len) _ h4 in
    let (_, _, h6) = >>=-eq-ok (refuse (not (checksum_zero bytes)) crc_error) _ h5 in
    let bounds = refused (ltb len 36 || ltb max_xsdt_bytes len) load_error r3 in
    let signature =
      refused ((wide && not (starts xsdt_sig hdr)) || (not wide && not (starts rsdt_sig hdr)))
        load_error r4 in
    let made : Root = record {
      address = at;
      is_xsdt = starts xsdt_sig hdr;
      len = len;
      contents = bytes;
    } in
    let same : made ≡ root = same_root made root h6 in
    let here = root_of rsdp in
    subst (IsRoot machine rsdp) same (record {
      at = here;
      size = size_of rsdp (starts xsdt_sig hdr) (signed wide hdr signature);
      len =
          ap (λ b. le_field b 4 4) ((phys_copy_iff machine at 36 hdr).0 r2).1
          ∙ ap (length_at machine) here;
      long = long_enough len bounds;
      read = subst (λ a. phys_copy machine a len ≡ ok bytes) here r5;
    })
  where
    same_root : (a b : Root) → ◌≡◌ {A = Result Status Root} (ok a) (ok b) → a ≡ b
    same_root a b e = cc

    long_enough : (n : ℕ) → (ltb n 36 || ltb max_xsdt_bytes n) ≡ false → 36 ≤ n
    long_enough n e = ground arith

pub entry_count-whole :
    (root : Root) (count size : ℕ)
    → entry_size_of root ≡ size
    → (size ≡ 4) ⊎ (size ≡ 8)
    → 36 ≤ root.len
    → entry_count root ≡ ok count
    → (36 + count * size ≡ root.len) × (count ≤ 32)
unfolding entry_count
entry_count-whole root count size e (inl four) long h =
    let known : entry_size_of root ≡ 4 = e ∙ four in
    let h' =
      subst
        (λ n.
          (do
            refuse (not ((root.len - 36) % n == 0)) bad_buffer_size
            refuse ((root.len - 36) / n == 0 || ltb max_tables ((root.len - 36) / n))
                bad_buffer_size
            ok ((root.len - 36) / n))
          ≡ ok count)
        known h in
    rw four (ground (arith, h', long))
entry_count-whole root count size e (inr eight) long h =
    let known : entry_size_of root ≡ 8 = e ∙ eight in
    let h' =
      subst
        (λ n.
          (do
            refuse (not ((root.len - 36) % n == 0)) bad_buffer_size
            refuse ((root.len - 36) / n == 0 || ltb max_tables ((root.len - 36) / n))
                bad_buffer_size
            ok ((root.len - 36) / n))
          ≡ ok count)
        known h in
    rw eight (ground (arith, h', long))

pub four_or_eight : (rsdp : Rsdp) → (entry_bytes rsdp ≡ 4) ⊎ (entry_bytes rsdp ≡ 8)
four_or_eight rsdp = elim (Bool-cases (rsdp.xsdt == 0)) [
  | inl none_such ↦ inl (rw none_such refl)
  | inr there ↦ inr (rw there refl)
]
