-- ===== src/Apfs/Name/Units.antt =====
-- What a name is, for `name_units` of src/apfs_observation.rs, and its tests of the units.
use nextcore_efi.Common.{
  All, Bool, Bool-cases, List, [], arith, false, inl, inr, leb, length, ltb, refl, true, ℕ, ◌&&◌,
  ◌∷◌, ◌≡◌, ◌≢◌, ◌≤◌, ◌<◌, ◌||◌, ◌⊎◌,
}
use nextcore_efi.Apfs.Name.{bad_unit, bad_utf16, is_empty}

-- A unit that a path component may hold: from the blank up, and no DEL, slash or backslash.
abbrev pub IsComponentUnit : ℕ → Type 0
IsComponentUnit u = (0x20 ≤ u) × (u ≢ 0x7f) × (u ≢ 0x2f) × (u ≢ 0x5c)

-- Well-formed UTF-16: units outside the surrogates, and pairs of a high and a low surrogate.
pub data WellFormed : List ℕ → Type 0 where
  nothing : WellFormed []
  unit : (u : ℕ) (us : List ℕ) → (u < 0xd800) ⊎ (0xdfff < u) → WellFormed us → WellFormed (u ∷ us)
  pair :
      (u v : ℕ) (us : List ℕ)
      → (0xd800 ≤ u) × (u < 0xdc00)
      → (0xdc00 ≤ v) × (v ≤ 0xdfff)
      → WellFormed us
      → WellFormed (u ∷ v ∷ us)

-- What a name is, whatever bytes it is read from.
pub record IsName (component : Bool) (us : List ℕ) : Type 0 where
  pub nonzero : All (λ u. u ≢ 0) us
  pub units : component ≡ true → All IsComponentUnit us
  pub short : length us ≤ 255
  pub named : component ≡ true → us ≢ []
  pub well_formed : WellFormed us

-- A unit as the scan tests it.
abbrev pub IsNameUnit : Bool → ℕ → Type 0
IsNameUnit component u = (u ≢ 0) × ((component && bad_unit u) ≡ false)

pub units_nonzero :
    (component : Bool) (us : List ℕ) → All (IsNameUnit component) us → All (λ u. u ≢ 0) us
units_nonzero component [] h = tt
units_nonzero component (u ∷ us) h = (h.0.0, units_nonzero component us h.1)

component_unit : (u : ℕ) → bad_unit u ≡ false → IsComponentUnit u
component_unit u h = ground arith

unit_passes : (u : ℕ) → IsComponentUnit u → bad_unit u ≡ false
unit_passes u h = ground (arith, h.0, h.1, h.2, h.3)

units_component : (us : List ℕ) → All (IsNameUnit true) us → All IsComponentUnit us
units_component [] h = tt
units_component (u ∷ us) h = (component_unit u h.0.1, units_component us h.1)

pub units_pass :
    (component : Bool) (us : List ℕ)
    → All (λ u. u ≢ 0) us
    → (component ≡ true → All IsComponentUnit us)
    → All (IsNameUnit component) us
units_pass component [] h k = tt
units_pass true (u ∷ us) h k =
    ((h.0, unit_passes u (k refl).0), units_pass true us h.1 (λ e. (k e).1))
units_pass false (u ∷ us) h k = ((h.0, refl), units_pass false us h.1 (λ e. absurd (cc)))

pub units_of :
    (component : Bool) (us : List ℕ)
    → All (IsNameUnit component) us
    → component ≡ true
    → All IsComponentUnit us
units_of true us h e = units_component us h
units_of false us h e = absurd (cc)

pub named_of :
    (component : Bool) (us : List ℕ)
    → (component && is_empty us) ≡ false
    → component ≡ true
    → us ≢ []
named_of true [] h e = absurd (cc)
named_of true (u ∷ us) h e = λ k. cc
named_of false us h e = absurd (cc)

pub named_passes :
    (component : Bool) (us : List ℕ)
    → (component ≡ true → us ≢ [])
    → (component && is_empty us) ≡ false
named_passes true [] h = absurd (h refl refl)
named_passes true (u ∷ us) h = refl
named_passes false us h = refl

pub WellFormed-of : (us : List ℕ) → bad_utf16 us ≡ false → WellFormed us
unfolding bad_utf16
WellFormed-of [] h = nothing
WellFormed-of (u ∷ []) h = unit u [] (outside u h) nothing
  where
    outside : (x : ℕ) → (leb 0xd800 x && leb x 0xdfff) ≡ false → (x < 0xd800) ⊎ (0xdfff < x)
    outside x e = ground arith
WellFormed-of (u ∷ v ∷ us) h = elim (Bool-cases (ltb u 0xd800 || ltb 0xdfff u)) [
  | inl outside ↦ unit u (v ∷ us) (ground arith) (WellFormed-of (v ∷ us) (ground arith))
  | inr inside ↦ pair u v us (ground arith) (ground arith) (WellFormed-of us (ground arith))
]

pub WellFormed-passes : (us : List ℕ) → WellFormed us → bad_utf16 us ≡ false
unfolding bad_utf16
WellFormed-passes _ nothing = refl
WellFormed-passes _ (unit u [] h w) = ground arith
WellFormed-passes _ (unit u (v ∷ us) h w) = ground (arith, WellFormed-passes (v ∷ us) w)
WellFormed-passes _ (pair u v us h k w) = ground (arith, WellFormed-passes us w)
