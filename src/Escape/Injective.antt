-- ===== src/Escape/Injective.antt =====
-- The escaped form of `name` in src/apfs_observation.rs against the units that it shows.
use nextcore_efi.Common.{
  All, All-append, IsU16, List, [], arith, refl, sym, ℕ, ◌%◌, ◌++◌, ◌/◌, ◌<◌, ◌∷◌, ◌≡◌, ◌≢◌, ◌≤◌,
}
use nextcore_efi.Escape.{hex_digit, hex4, escape_unit, escape}

abbrev pub IsPrintable : ℕ → Type 0
IsPrintable c = (0x20 ≤ c) × (c ≤ 0x7e)

hex_digit-IsPrintable : (d : ℕ) → d < 16 → IsPrintable (hex_digit d)
unfolding hex_digit
hex_digit-IsPrintable d h = ground arith

hex_digit-injective : (d e : ℕ) → d < 16 → e < 16 → hex_digit d ≡ hex_digit e → d ≡ e
unfolding hex_digit
hex_digit-injective d e hd he h = ground arith

hex4-IsPrintable : (u : ℕ) → All IsPrintable (hex4 u)
unfolding hex4
hex4-IsPrintable u = (
  hex_digit-IsPrintable (u / 4096 % 16) (omega arith),
  (
    hex_digit-IsPrintable (u / 256 % 16) (omega arith),
    (
      hex_digit-IsPrintable (u / 16 % 16) (omega arith),
      (hex_digit-IsPrintable (u % 16) (omega arith), tt),
    ),
  ),
)

-- Four digits determine a `u16`, also with more behind them.
hex4-cancel :
    (u v : ℕ) (a b : List ℕ) → IsU16 u → IsU16 v → hex4 u ++ a ≡ hex4 v ++ b → (u ≡ v) × (a ≡ b)
unfolding hex4
hex4-cancel u v a b hu hv e = (
  omega (
    arith,
    hex_digit-injective (u / 4096 % 16) (v / 4096 % 16) (omega arith) (omega arith) (cc),
    hex_digit-injective (u / 256 % 16) (v / 256 % 16) (omega arith) (omega arith) (cc),
    hex_digit-injective (u / 16 % 16) (v / 16 % 16) (omega arith) (omega arith) (cc),
    hex_digit-injective (u % 16) (v % 16) (omega arith) (omega arith) (cc),
  ),
  cc,
)

escape_unit-cancel :
    (u v : ℕ) (a b : List ℕ)
    → IsU16 u
    → IsU16 v
    → escape_unit u ++ a ≡ escape_unit v ++ b
    → (u ≡ v) × (a ≡ b)
unfolding escape_unit
escape_unit-cancel u v a b hu hv e = ground (arith, hex4-cancel u v a b hu hv)

escape_unit-ne-nil : (u : ℕ) (a : List ℕ) → escape_unit u ++ a ≢ []
unfolding escape_unit
escape_unit-ne-nil u a e = ground arith

escape_unit-IsPrintable : (u : ℕ) → All IsPrintable (escape_unit u)
unfolding escape_unit
escape_unit-IsPrintable u = ground (arith, hex4-IsPrintable u)

-- The escaped form of any units is printable ASCII.
pub escape-IsPrintable : (us : List ℕ) → All IsPrintable (escape us)
unfolding escape
escape-IsPrintable [] = tt
escape-IsPrintable (u ∷ us) =
    All-append IsPrintable (escape_unit u) (escape us) (escape_unit-IsPrintable u)
      (escape-IsPrintable us)

-- Two lists of 16-bit units with the same escaped form are the same.
pub escape-injective :
    (us vs : List ℕ) → All IsU16 us → All IsU16 vs → escape us ≡ escape vs → us ≡ vs
unfolding escape
escape-injective [] [] hu hv e = refl
escape-injective [] (v ∷ vs) hu hv e = absurd (escape_unit-ne-nil v (escape vs) (sym e))
escape-injective (u ∷ us) [] hu hv e = absurd (escape_unit-ne-nil u (escape us) e)
escape-injective (u ∷ us) (v ∷ vs) hu hv e =
    let (head, tail) = escape_unit-cancel u v (escape us) (escape vs) hu.0 hv.0 e in
    let ih = escape-injective us vs hu.1 hv.1 tail in ground arith
