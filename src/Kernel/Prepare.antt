-- ===== src/Kernel/Prepare.antt =====
-- `prepare` of src/kernel.rs in the production build: the kernel is read, placed and, for want of
-- providers, dropped again.
mod Range
pub mod Laws
use nextcore_efi.Common.{
  Bool, List, Option, Result, [], checked_add, checked_sub, err, ltb, none, not, ok, ok_or, refuse,
  some, ℕ, ◌*◌, ◌++◌, ◌>>=◌, ◌>>◌, ◌||◌, ◌∷◌,
}
use nextcore_efi.Status.{Status, invalid_parameter, load_error, unsupported, not_ready}
use nextcore_efi.Files.{Volume, read_file}
use nextcore_efi.Memory.Calls.{Call, frees}
use nextcore_efi.Kernel.Load.{Plan, Parser, Source, Machine, Loaded, Stop, fails, load_at}

abbrev pub kernel_va_base : ℕ
kernel_va_base = 0xffffff8000000000

abbrev pub low_profile_end : ℕ
low_profile_end = 64 * 1024 * 1024

abbrev pub arena_pages : ℕ
arena_pages = 64

-- What the parser says of an image beside its plan: the base it prefers, and whether its entry is a
-- UnixThread64.
pub record Image : Type 0 where
  pub plan : Plan
  pub preferred_base : ℕ
  pub is_unix_thread : Bool

-- `parse_kernel_target` of the configuration, which gives a path if that converts to UCS-2, and
-- `parse_macho_image`.
pub record Formats : Type 0 where
  pub target : List ℕ → Option (Option (List ℕ))
  pub image : List ℕ → Option Image

-- The volumes that hold the configuration and the file at a path, and where the source is in memory.
pub record Disk : Type 0 where
  pub config : Volume
  pub kernel : List ℕ → Volume
  pub source_address : ℕ

-- The end of the placement: one arena of 64 pages behind the image.
abbrev pub placed_end : (base image_size : ℕ) → Option ℕ
placed_end base image_size = elim (checked_add base image_size) [
  | none ↦ none
  | some end ↦ checked_add end (arena_pages * 4096)
]

-- Where the profile puts an image.
unfoldable pub physical_base_of : Image → Result Status ℕ
physical_base_of image = do
  refuse (not image.is_unix_thread) unsupported
  base ← ok_or (checked_sub image.preferred_base kernel_va_base) unsupported
  end ← ok_or (placed_end base image.plan.image_size) unsupported
  refuse (ltb base 0x100000 || ltb low_profile_end end) unsupported
  ok base

-- A kernel that is loaded is dropped, since the providers are pending.
abbrev pub dropped : Result Stop Loaded × List Call → Option (Result Stop (Unit {0})) × List Call
dropped (err stop, log) = (some (err stop), log)
dropped (ok loaded, log) =
    (some (err (fails not_ready)), log ++ (frees loaded.allocation loaded.pages ∷ []))

abbrev pub place_image :
    Parser
    → Machine
    → Source
    → Image
    → Result Status ℕ
    → Option (Result Stop (Unit {0})) × List Call
place_image parser machine source image (err e) = (some (err (fails e)), [])
place_image parser machine source image (ok base) =
    dropped (load_at parser machine image.plan source base arena_pages)

abbrev pub with_image :
    Parser → Machine → Source → Option Image → Option (Result Stop (Unit {0})) × List Call
with_image parser machine source none = (some (err (fails load_error)), [])
with_image parser machine source (some image) =
    place_image parser machine source image (physical_base_of image)

abbrev pub with_source :
    Parser
    → Machine
    → Formats
    → (address : ℕ) → Option (Result Status (List ℕ))
    → Option (Result Stop (Unit {0})) × List Call
with_source parser machine formats address none = (none, [])
with_source parser machine formats address (some (err e)) = (some (err (fails e)), [])
with_source parser machine formats address (some (ok bytes)) =
    with_image parser machine (record { address = address; bytes = bytes }) (formats.image bytes)

abbrev pub with_target :
    Parser
    → Machine
    → Formats
    → Disk
    → Option (Option (List ℕ))
    → Option (Result Stop (Unit {0})) × List Call
with_target parser machine formats disk none = (some (err (fails invalid_parameter)), [])
with_target parser machine formats disk (some none) = (some (err (fails invalid_parameter)), [])
with_target parser machine formats disk (some (some path)) =
    with_source parser machine formats disk.source_address
      (read_file (disk.kernel path) (64 * 1024 * 1024))

abbrev pub with_config :
    Parser
    → Machine
    → Formats
    → Disk
    → Option (Result Status (List ℕ))
    → Option (Result Stop (Unit {0})) × List Call
with_config parser machine formats disk none = (none, [])
with_config parser machine formats disk (some (err e)) = (some (err (fails e)), [])
with_config parser machine formats disk (some (ok bytes)) =
    with_target parser machine formats disk (formats.target bytes)

-- `prepare`, with the calls of the firmware that it made; `none` is a read that does not end.
unfoldable pub prepare :
    Parser → Machine → Formats → Disk → Option (Result Stop (Unit {0})) × List Call
prepare parser machine formats disk =
    with_config parser machine formats disk (read_file disk.config (1024 * 1024))
