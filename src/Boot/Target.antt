-- ===== src/Boot/Target.antt =====
-- `load_target` of src/main.rs: a target that is not this program itself is loaded from its device. The
-- device path of the image, and LoadImage, enter through what they answer; texts are in UTF-8.
pub mod Laws
use nextcore_efi.Common.{
  Bool, List, Option, Result, [], err, false, if◌then◌else◌, leb, map, none, not, ok, ok_or, refuse,
  some, true, ℕ, ◌&&◌, ◌++◌, ◌+◌, ◌==◌, ◌>>=◌, ◌>>◌, ◌∷◌,
}
use nextcore_efi.Common.Bytes.{same_bytes}
use nextcore_efi.Status.{Status, unsupported, not_found, invalid_parameter, out_of_resources}

-- `u8::to_ascii_lowercase`
abbrev pub to_lower : ℕ → ℕ
to_lower b = if leb 0x41 b && leb b 0x5a then b + 0x20 else b

-- `replace('/', "\\")`
abbrev pub to_backslash : ℕ → ℕ
to_backslash b = if b == 0x2f then 0x5c else b

-- `str::eq_ignore_ascii_case`
abbrev pub eq_ignore_ascii_case : List ℕ → List ℕ → Bool
eq_ignore_ascii_case xs ys = same_bytes (map to_lower xs) (map to_lower ys)

-- A node of the file path of the running image: one that is no file path, or the text of one, which may
-- not be a text.
pub data Piece : Type 0 where
  other_node : Piece
  file_path : Option (List ℕ) → Piece

abbrev pub push_text : Result Status (List ℕ) → List ℕ → Result Status (List ℕ)
push_text rest text = rest >>= λ path. ok (text ++ path)

-- The loop over the nodes.
unfoldable pub own_path : List Piece → Result Status (List ℕ)
own_path [] = ok []
own_path (other_node ∷ ps) = own_path ps
own_path (file_path none ∷ ps) = err invalid_parameter
own_path (file_path (some text) ∷ ps) = push_text (own_path ps) text

-- What the firmware and the uefi crate answer: the running image, its device, its nodes if it has a file
-- path, whether the target converts to UCS-2, the device path of the device, whether the full path can
-- be built, and LoadImage.
pub record Loader : Type 0 where
  pub current : Result Status (Unit {0})
  pub device : Option ℕ
  pub nodes : Option (List Piece)
  pub converts : List ℕ → Bool
  pub device_path : Result Status (Unit {0})
  pub builds : Bool
  pub load_image : (device : ℕ) → List ℕ → Result Status ℕ

-- `BootTarget`, as far as `load_target` reads it.
pub record Target : Type 0 where
  pub apfs_volume : Bool
  pub path : List ℕ

abbrev pub is_self : List ℕ → List ℕ → Bool
is_self own path = eq_ignore_ascii_case (map to_backslash own) path

abbrev pub is_empty : List ℕ → Bool
is_empty [] = true
is_empty (b ∷ bs) = false

-- `load_target` of a target without an APFS volume.
abbrev pub load_file : Loader → List ℕ → Result Status ℕ
load_file loader path = do
  loader.current
  device ← ok_or loader.device not_found
  nodes ← ok_or loader.nodes unsupported
  own ← own_path nodes
  refuse (is_empty own) unsupported
  refuse (is_self own path) invalid_parameter
  refuse (not (loader.converts path)) invalid_parameter
  loader.device_path
  refuse (not loader.builds) out_of_resources
  loader.load_image device path

-- `load_target`; `apfs` is `apfs_target::load`, `none` without the feature.
abbrev pub load_apfs : Option (Result Status ℕ) → Result Status ℕ
load_apfs none = err unsupported
load_apfs (some loaded) = loaded

unfoldable pub load_target : Loader → Option (Result Status ℕ) → Target → Result Status ℕ
load_target loader apfs target =
    if target.apfs_volume then load_apfs apfs else load_file loader target.path
