-- ===== src/Apfs/Name/Runs.antt =====
-- Names at concrete inputs.
use nextcore_efi.Common.Bytes.{le16_units}
use nextcore_efi.Apfs.Invalid.{Invalid}
use nextcore_efi.Common.{All, List, [], arith, err, false, ok, refl, true, ℕ, ◌++◌, ◌↔◌, ◌∷◌, ◌≡◌}
use nextcore_efi.Escape.{escape_unit, escape}
use nextcore_efi.Escape.Injective.{IsPrintable}
use nextcore_efi.Apfs.Name.{scan, bad_utf16, name_units, name}
use nextcore_efi.Apfs.Name.Units.{IsName}
use nextcore_efi.Apfs.Name.Laws.{name_units_iff, name-injective}

abbrev ab_bytes : List ℕ
ab_bytes = 0x41 ∷ 0 ∷ 0x22 ∷ 0 ∷ 0 ∷ 0 ∷ 9 ∷ []

name_units_run : name_units ab_bytes true ≡ ok (0x41 ∷ 0x22 ∷ [])
unfolding name_units scan bad_utf16 le16_units
name_units_run = refl

name_run : name ab_bytes true ≡ ok (0x41 ∷ 0x5c ∷ 0x22 ∷ [])
unfolding name name_units scan bad_utf16 le16_units escape escape_unit
name_run = refl

-- A lone surrogate, a separator in a component and a missing NUL are refused.
name_units_surrogate : name_units (0x00 ∷ 0xd8 ∷ 0 ∷ 0 ∷ []) false ≡ err Invalid.name
unfolding name_units scan bad_utf16 le16_units
name_units_surrogate = refl

name_units_slash : name_units (0x2f ∷ 0 ∷ 0 ∷ 0 ∷ []) true ≡ err Invalid.name
unfolding name_units scan bad_utf16 le16_units
name_units_slash = refl

name_units_open : name_units (0x41 ∷ 0 ∷ []) true ≡ err Invalid.name
unfolding name_units scan bad_utf16 le16_units
name_units_open = refl

name_units_iff_example : (name_units ab_bytes true ≡ ok (0x41 ∷ 0x22 ∷ [])) ↔ (
    IsName true (0x41 ∷ 0x22 ∷ [])
    × ((rest : List ℕ) × (le16_units ab_bytes ≡ (0x41 ∷ 0x22 ∷ []) ++ (0 ∷ rest))))
name_units_iff_example = name_units_iff ab_bytes true (0x41 ∷ 0x22 ∷ [])

name-injective_example :
    (◌≡◌ {A = List ℕ} (0x41 ∷ 0x22 ∷ []) (0x41 ∷ 0x22 ∷ []))
    × All IsPrintable (0x41 ∷ 0x5c ∷ 0x22 ∷ [])
name-injective_example =
    name-injective ab_bytes ab_bytes true (0x41 ∷ 0x22 ∷ []) (0x41 ∷ 0x22 ∷ [])
      (0x41 ∷ 0x5c ∷ 0x22 ∷ []) (omega arith) (omega arith) name_units_run name_units_run name_run
      name_run
