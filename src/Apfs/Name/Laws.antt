-- ===== src/Apfs/Name/Laws.antt =====
-- What `name_units` accepts, and what `name` promises of its text.
use nextcore_efi.Common.Bytes.{le16_units}
use nextcore_efi.Common.{
  All, Bool, Bool-cases, IsU16, List, Result-cases, [], arith, false, inl, inr, length, not, ok,
  refl, subst, true, ℕ, ◌&&◌, ◌++◌, ◌+◌, ◌==◌, ◌↔◌, ◌∷◌, ◌≡◌, ◌≤◌,
}
use nextcore_efi.Escape.{escape}
use nextcore_efi.Escape.Injective.{IsPrintable, escape-IsPrintable, escape-injective}
use nextcore_efi.Apfs.Name.{max_name, scan, bad_utf16, is_empty, name_units, name}
use nextcore_efi.Apfs.Name.Units.{
  IsName, IsNameUnit, units_nonzero, units_pass, units_of, named_of, named_passes, WellFormed-of,
  WellFormed-passes,
}

-- What a scan that met a NUL has read.
record Scanned (component : Bool) (count : ℕ) (xs us : List ℕ) : Type 0 where
  units : All (IsNameUnit component) us
  short : count + length us ≤ max_name
  rest : List ℕ
  eq : xs ≡ us ++ (0 ∷ rest)

Scanned-nul :
    (component : Bool) (count x : ℕ) (xs us : List ℕ)
    → x ≡ 0
    → us ≡ []
    → count ≤ max_name
    → Scanned component count (x ∷ xs) us
Scanned-nul component count x xs us nul e h = record {
  units = rw e tt;
  short = rw e (omega arith);
  rest = xs;
  eq = rw (e, nul);
}

Scanned-cons :
    (component : Bool) (count x : ℕ) (xs us vs : List ℕ)
    → us ≡ x ∷ vs
    → IsNameUnit component x
    → Scanned component (count + 1) xs vs
    → Scanned component count (x ∷ xs) us
Scanned-cons component count x xs us vs e fine s = record {
  units = rw e (fine, s.units);
  short = rw e (omega (arith, s.short));
  rest = s.rest;
  eq = rw (e, s.eq);
}

scan_sound :
    (component : Bool) (count : ℕ) (xs us : List ℕ)
    → count ≤ max_name
    → scan component count xs ≡ ok (us, true)
    → Scanned component count xs us
unfolding scan
scan_sound component count [] us h e = cc
scan_sound component count (x ∷ xs) us h e = elim (Bool-cases (x == 0)) [
  | inl nul ↦ Scanned-nul component count x xs us (ground arith) (ground arith) h
  | inr more ↦ elim (Result-cases (scan component (count + 1) xs)) [
    | inl ((vs, flag), r) ↦
        Scanned-cons component count x xs us vs (ground arith) (ground arith)
          (scan_sound component (count + 1) xs vs (ground arith) (ground arith))
    | inr (x', r) ↦ absurd (ground arith)
  ]
]

scan_complete :
    (component : Bool) (count : ℕ) (us rest : List ℕ)
    → All (IsNameUnit component) us
    → count + length us ≤ max_name
    → scan component count (us ++ (0 ∷ rest)) ≡ ok (us, true)
unfolding scan
scan_complete component count [] rest v h = refl
scan_complete component count (u ∷ us) rest v h =
    ground (arith, v.0.0, v.0.1, scan_complete component (count + 1) us rest v.1)

is_true : (b : Bool) → not b ≡ false → b ≡ true
is_true true h = refl
is_true false h = cc

name_units_ok :
    (bytes : List ℕ) (component : Bool) (us : List ℕ)
    → name_units bytes component ≡ ok us
    → (scan component 0 (le16_units bytes) ≡ ok (us, true))
      × ((component && is_empty us) ≡ false)
      × (bad_utf16 us ≡ false)
unfolding name_units
name_units_ok bytes component us e = ground arith

name_units_of_scan :
    (bytes : List ℕ) (component : Bool) (us : List ℕ)
    → scan component 0 (le16_units bytes) ≡ ok (us, true)
    → (component && is_empty us) ≡ false
    → bad_utf16 us ≡ false
    → name_units bytes component ≡ ok us
unfolding name_units
name_units_of_scan bytes component us e named formed = ground arith

-- `name_units` answers `us` exactly when the 16-bit units of the bytes begin with `us` and a NUL, and
-- `us` is a name: at most 255 units, none NUL, well-formed UTF-16, and for a component not empty and
-- without units below the blank, DEL, `/` and backslash.
pub name_units_iff :
    (bytes : List ℕ) (component : Bool) (us : List ℕ)
    → (name_units bytes component ≡ ok us)
      ↔ (IsName component us × ((rest : List ℕ) × (le16_units bytes ≡ us ++ (0 ∷ rest))))
name_units_iff bytes component us = (to, from)
  where
    to :
        name_units bytes component ≡ ok us
        → IsName component us × ((rest : List ℕ) × (le16_units bytes ≡ us ++ (0 ∷ rest)))
    to e =
        let (r, named, formed) = name_units_ok bytes component us e in
        let s = scan_sound component 0 (le16_units bytes) us (omega arith) r in
        (
          record {
            nonzero = units_nonzero component us s.units;
            units = units_of component us s.units;
            short = omega (arith, s.short);
            named = named_of component us named;
            well_formed = WellFormed-of us formed;
          },
          (s.rest, s.eq),
        )

    from :
        IsName component us × ((rest : List ℕ) × (le16_units bytes ≡ us ++ (0 ∷ rest)))
        → name_units bytes component ≡ ok us
    from (v, (rest, e)) =
        name_units_of_scan bytes component us
          (rw e (
            scan_complete component 0 us rest (units_pass component us v.nonzero v.units)
              (omega (arith, v.short))))
          (named_passes component us v.named) (WellFormed-passes us v.well_formed)

-- Two names of 16-bit units that `name` shows alike are the same, and what it shows is printable.
pub name-injective :
    (bytes more : List ℕ) (component : Bool) (us vs text : List ℕ)
    → All IsU16 us
    → All IsU16 vs
    → name_units bytes component ≡ ok us
    → name_units more component ≡ ok vs
    → name bytes component ≡ ok text
    → name more component ≡ ok text
    → (us ≡ vs) × All IsPrintable text
unfolding name
name-injective bytes more component us vs text hu hv eu ev et et' = (
  escape-injective us vs hu hv (ground arith),
  subst (All IsPrintable) {x = escape us} (ground arith) (escape-IsPrintable us),
)
