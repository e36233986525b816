-- ===== src/Kernel/Verify.antt =====
-- `verify_memory` of src/loaded_kernel.rs, which compares memory by aligned words.
pub mod Laws
use nextcore_efi.Common.Bytes.{le_value}
use nextcore_efi.Common.{
  Bool, List, Option, [], drop, false, get_or, if◌then◌else◌, length, min, none, not, replicate,
  some, suc, take, true, zero, ℕ, ◌%◌, ◌&&◌, ◌*◌, ◌-◌, ◌/◌, ◌==◌, ◌∷◌,
}

-- The bytes that `expected.map_or(0, ...)` asks for.
abbrev pub wanted : ℕ → Option (List ℕ) → List ℕ
wanted n none = replicate n 0
wanted n (some bytes) = bytes

abbrev pub is_other_length : ℕ → Option (List ℕ) → Bool
is_other_length n none = false
is_other_length n (some bytes) = not (length bytes == n)

-- The loops over the bytes in front of and behind the words.
unfoldable pub bytes_match : List ℕ → List ℕ → Bool
bytes_match [] ys = true
bytes_match (x ∷ xs) ys = x == get_or ys 0 0 && bytes_match xs (drop 1 ys)

-- The loop over `n` words, as `u64::from_ne_bytes` of eight bytes.
unfoldable pub words_match : ℕ → List ℕ → List ℕ → Bool
words_match zero xs ys = true
words_match (suc n) xs ys =
    le_value (take 8 xs) == le_value (take 8 ys) && words_match n (drop 8 xs) (drop 8 ys)

-- The length of the prefix that `align_to::<u64>` splits off at an address.
abbrev pub lead : (address len : ℕ) → ℕ
lead address len = min ((8 - address % 8) % 8) len

-- The three loops, over a prefix of `n` bytes and `w` words.
abbrev pub parts_match : (n w : ℕ) → List ℕ → List ℕ → Bool
parts_match n w actual expected =
    bytes_match (take n actual) (take n expected)
    && words_match w (drop n actual) (drop n expected)
    && bytes_match (drop (w * 8) (drop n actual)) (drop (w * 8) (drop n expected))

-- `verify_memory` of the bytes at an address.
unfoldable pub verify_memory : (address : ℕ) → List ℕ → Option (List ℕ) → Bool
verify_memory address actual expected =
    if is_other_length (length actual) expected
    then false
    else let n = lead address (length actual) in
      parts_match n ((length actual - n) / 8) actual (wanted (length actual) expected)
