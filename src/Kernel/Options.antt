-- ===== src/Kernel/Options.antt =====
-- The path that `options` of src/kc.rs accepts, as the bytes of its UTF-8 form.
pub mod Names
pub mod Laws
use nextcore_efi.Common.{
  Bool, List, [], all, any, drop, false, if◌then◌else◌, leb, length, ltb, not, true, ℕ, ◌&&◌, ◌==◌,
  ◌||◌, ◌∷◌,
}

abbrev pub backslash : ℕ
backslash = 0x5c

-- `u8::is_ascii_alphanumeric`
abbrev pub is_alphanumeric : ℕ → Bool
is_alphanumeric b =
    (leb 0x30 b && leb b 0x39) || (leb 0x41 b && leb b 0x5a) || (leb 0x61 b && leb b 0x7a)

-- A byte of a name: a letter, a digit, a dot, an underscore or a dash.
abbrev pub is_name_byte : ℕ → Bool
is_name_byte b = is_alphanumeric b || b == 0x2e || b == 0x5f || b == 0x2d

abbrev pub is_path_byte : ℕ → Bool
is_path_byte b = b == backslash || is_name_byte b

-- A byte in front of the first component.
abbrev pub onto_first : ℕ → List (List ℕ) → List (List ℕ)
onto_first b [] = (b ∷ []) ∷ []
onto_first b (c ∷ cs) = (b ∷ c) ∷ cs

-- `str::split('\\')`
unfoldable pub split : List ℕ → List (List ℕ)
split [] = [] ∷ []
split (b ∷ bs) = if b == backslash then [] ∷ split bs else onto_first b (split bs)

-- `c.is_empty() || c == "." || c == ".."`
abbrev pub is_dots : List ℕ → Bool
is_dots [] = true
is_dots (a ∷ []) = a == 0x2e
is_dots (a ∷ b ∷ []) = a == 0x2e && b == 0x2e
is_dots (a ∷ b ∷ c ∷ cs) = false

abbrev pub starts_absolute : List ℕ → Bool
starts_absolute [] = false
starts_absolute (b ∷ bs) = b == backslash

-- The test of `options` on the path.
unfoldable pub is_refused : List ℕ → Bool
is_refused path =
    ltb 1024 (length path)
    || not (starts_absolute path)
    || ltb (length path) 2
    || not (all is_path_byte path)
    || any is_dots (split (drop 1 path))
