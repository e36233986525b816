-- ===== src/Common/Bytes.antt =====
-- Little-endian integers in lists of bytes, and UTF-16 units in bytes.
use nextcore_efi.Common.{
  All, Bool, IsByte, IsU16, List, [], arith, false, length, refl, true, ℕ, ◌%◌, ◌&&◌, ◌*◌, ◌+◌, ◌/◌,
  ◌==◌, ◌∷◌, ◌≡◌,
}

-- `u16::from_le_bytes([lo, hi])`
abbrev pub le16 : ℕ → ℕ → ℕ
le16 lo hi = lo + 256 * hi

-- `u16::to_le_bytes`
abbrev pub le16_bytes : ℕ → List ℕ
le16_bytes v = v % 256 ∷ v / 256 % 256 ∷ []

-- The number that a little-endian run of bytes stands for.
unfoldable pub le_value : List ℕ → ℕ
le_value [] = 0
le_value (b ∷ bs) = b + 256 * le_value bs

-- The units of `chunks_exact(2)` with `u16::from_le_bytes`; an odd last byte is left out.
unfoldable pub le16_units : List ℕ → List ℕ
le16_units (lo ∷ hi ∷ rest) = le16 lo hi ∷ le16_units rest
le16_units _ = []

-- The bytes of a list of units, low byte first.
unfoldable pub units_bytes : List ℕ → List ℕ
units_bytes [] = []
units_bytes (u ∷ us) = u % 256 ∷ u / 256 ∷ units_bytes us

-- Reading back the bytes of a list of units gives the units.
pub le16_units-units_bytes : (us : List ℕ) → le16_units (units_bytes us) ≡ us
unfolding le16_units units_bytes
le16_units-units_bytes [] = refl
le16_units-units_bytes (u ∷ us) = ground (arith, le16_units-units_bytes us)

pub length-units_bytes : (us : List ℕ) → length (units_bytes us) ≡ 2 * length us
unfolding units_bytes
length-units_bytes [] = refl
length-units_bytes (u ∷ us) = omega (arith, length-units_bytes us)

pub units_bytes-IsByte : (us : List ℕ) → All IsU16 us → All IsByte (units_bytes us)
unfolding units_bytes
units_bytes-IsByte [] h = tt
units_bytes-IsByte (u ∷ us) h = (omega arith, (omega arith, units_bytes-IsByte us h.1))

-- `==` on slices of bytes.
abbrev pub same_bytes : List ℕ → List ℕ → Bool
same_bytes [] [] = true
same_bytes (x ∷ xs) (y ∷ ys) = x == y && same_bytes xs ys
same_bytes xs ys = false
