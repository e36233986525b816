-- ===== src/Escape.antt =====
-- The printable-ASCII form of UTF-16 units that `name` of src/apfs_observation.rs and
-- `escaped_description` of src/exit_data.rs write.
pub mod Injective
use nextcore_efi.Common.{List, [], if◌then◌else◌, leb, ltb, ℕ, ◌%◌, ◌&&◌, ◌++◌, ◌+◌, ◌/◌, ◌==◌, ◌∷◌}

-- A lower-case hexadecimal digit.
unfoldable pub hex_digit : ℕ → ℕ
hex_digit d = if ltb d 10 then 0x30 + d else 0x57 + d

-- `{unit:04x}` of a `u16`.
unfoldable pub hex4 : ℕ → List ℕ
hex4 u =
    hex_digit (u / 4096 % 16)
    ∷ hex_digit (u / 256 % 16)
    ∷ hex_digit (u / 16 % 16)
    ∷ hex_digit (u % 16)
    ∷ []

-- The `match unit` of both functions: `\"`, `\\`, a printable unit itself, or `\u` and four digits.
unfoldable pub escape_unit : ℕ → List ℕ
escape_unit u =
    if u == 0x22
    then 0x5c ∷ 0x22 ∷ []
    else if u == 0x5c
    then 0x5c ∷ 0x5c ∷ []
    else if leb 0x20 u && leb u 0x7e
    then u ∷ []
    else 0x5c ∷ 0x75 ∷ hex4 u

unfoldable pub escape : List ℕ → List ℕ
escape [] = []
escape (u ∷ us) = escape_unit u ++ escape us
