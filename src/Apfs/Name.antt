-- ===== src/Apfs/Name.antt =====
-- `name_units` and `name` of src/apfs_observation.rs: a bounded, NUL-terminated UTF-16 name.
pub mod Units
pub mod Laws
mod Runs
use nextcore_efi.Common.Bytes.{le16_units}
use nextcore_efi.Apfs.Invalid.{Invalid}
use nextcore_efi.Common.{
  Bool, List, Result, [], err, false, if◌then◌else◌, leb, ltb, not, ok, refuse, true, ℕ, ◌&&◌, ◌+◌,
  ◌==◌, ◌>>=◌, ◌>>◌, ◌||◌, ◌∷◌,
}
use nextcore_efi.Escape.{escape}

abbrev pub max_name : ℕ
max_name = 255

-- A unit that no path component may hold.
abbrev pub bad_unit : ℕ → Bool
bad_unit u = ltb u 0x20 || u == 0x7f || u == 0x2f || u == 0x5c

-- The loop over the units, from a count of those pushed: the units, and whether a NUL ended them.
unfoldable pub scan : Bool → ℕ → List ℕ → Result Invalid (List ℕ × Bool)
scan component count [] = ok ([], false)
scan component count (u ∷ us) =
    let rest = scan component (count + 1) us >>= λ r. ok (u ∷ r.0, r.1) in
    if u == 0
    then ok ([], true)
    else if count == max_name || (component && bad_unit u)
    then err Invalid.name
    else rest

abbrev pub is_low : ℕ → Bool
is_low u = leb 0xdc00 u && leb u 0xdfff

-- `decode_utf16(units).any(|c| c.is_err())`: a surrogate that is not half of a pair.
unfoldable pub bad_utf16 : List ℕ → Bool
bad_utf16 [] = false
bad_utf16 (u ∷ []) = leb 0xd800 u && leb u 0xdfff
bad_utf16 (u ∷ v ∷ us) =
    let behind = bad_utf16 (v ∷ us) in
    let behind_pair = bad_utf16 us in
    if ltb u 0xd800 || ltb 0xdfff u
    then behind
    else if is_low u
    then true
    else if is_low v
    then behind_pair
    else true

abbrev pub is_empty : List ℕ → Bool
is_empty [] = true
is_empty (u ∷ us) = false

unfoldable pub name_units : List ℕ → Bool → Result Invalid (List ℕ)
name_units bytes component = do
  (units, ended) ← scan component 0 (le16_units bytes)
  refuse (not ended || (component && is_empty units) || bad_utf16 units) Invalid.name
  ok units

unfoldable pub name : List ℕ → Bool → Result Invalid (List ℕ)
name bytes component = do units ← name_units bytes component; ok (escape units)
