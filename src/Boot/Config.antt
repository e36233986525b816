-- ===== src/Boot/Config.antt =====
-- `read_config` of src/main.rs. The firmware's answers are those of Files.Volume.
pub mod Laws
use nextcore_efi.Common.{
  List, Option, Result, [], err, false, if◌then◌else◌, length, ltb, map_err, none, not, ok, refuse,
  some, suc, true, zero, ℕ, ◌*◌, ◌++◌, ◌-◌, ◌==◌, ◌>>=◌, ◌>>◌,
}
use nextcore_efi.Status.{Status, invalid_parameter, bad_buffer_size, end_of_file}
use nextcore_efi.Files.{Volume}

abbrev pub max_config_bytes : ℕ
max_config_bytes = 1024 * 1024

-- The texts that `read_config` gives with a status.
pub data Reason : Type 0 where
  no_file_system no_volume no_file not_regular no_information empty_file too_large unreadable :
      Reason
  ended_early : Reason

abbrev pub Fault : Type 0
Fault = Status × Reason

-- `.map_err(|e| (e.status(), reason))`
abbrev pub because {ℓ} : {A : Type ℓ} → Reason → Result Status A → Result Fault A
because reason m = map_err (λ e. (e, reason)) m

unfoldable pub config_loop :
    (ℕ → ℕ → Result Status (List ℕ)) → (left size : ℕ) → List ℕ → Option (Result Fault (List ℕ))
config_loop read zero size got = if ltb (length got) size then none else some (ok got)
config_loop read (suc left) size got =
    if not (ltb (length got) size)
    then some (ok got)
    else elim (read (length got) (size - length got)) [
      | err e ↦ some (err (e, unreadable))
      | ok chunk ↦ elim (length chunk == 0) [
        | true ↦ some (err (end_of_file, ended_early))
        | false ↦ config_loop read left size (got ++ chunk)
      ]
    ]

unfoldable pub config_room : Volume → Result Fault ℕ
config_room volume = do
  because no_file_system volume.file_system
  because no_volume volume.root
  because no_file volume.handle
  refuse (not volume.is_regular) (invalid_parameter, not_regular)
  size ← because no_information volume.file_size
  refuse (size == 0) (bad_buffer_size, empty_file)
  refuse (ltb max_config_bytes size) (bad_buffer_size, too_large)
  ok size

-- `read_config`, whose loop has as many rounds as the file has bytes.
unfoldable pub read_config : Volume → Option (Result Fault (List ℕ))
read_config volume = elim (config_room volume) [
  | err e ↦ some (err e)
  | ok size ↦ config_loop volume.read size size []
]
