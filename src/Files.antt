-- ===== src/Files.antt =====
-- src/firmware_io.rs: the bounded read of a whole file of the boot volume.
pub mod Laws
mod Runs
use nextcore_efi.Common.{
  Bool, List, Option, Result, [], err, false, if◌then◌else◌, length, ltb, none, not, ok, refuse,
  some, suc, true, zero, ℕ, ◌++◌, ◌-◌, ◌==◌, ◌>>=◌, ◌>>◌, ◌^◌, ◌||◌,
}
use nextcore_efi.Status.{Status, invalid_parameter, bad_buffer_size, end_of_file}

-- What the firmware answers on the way to the file: whether the volume and the file open, whether it is
-- a regular file, its size, and the bytes that a read delivers at a position into a room.
pub record Volume : Type 0 where
  pub file_system : Result Status (Unit {0})
  pub root : Result Status (Unit {0})
  pub handle : Result Status (Unit {0})
  pub is_regular : Bool
  pub file_size : Result Status ℕ
  pub read : ℕ → ℕ → Result Status (List ℕ)

-- The loop of `read_file`: `got` is `bytes[..position]`. `none` is a loop that goes on after `left`
-- rounds.
unfoldable pub read_loop :
    (ℕ → ℕ → Result Status (List ℕ)) → (left size : ℕ) → List ℕ → Option (Result Status (List ℕ))
read_loop read zero size got = if ltb (length got) size then none else some (ok got)
read_loop read (suc left) size got =
    if not (ltb (length got) size)
    then some (ok got)
    else elim (read (length got) (size - length got)) [
      | err e ↦ some (err e)
      | ok chunk ↦ elim (length chunk == 0) [
        | true ↦ some (err end_of_file)
        | false ↦ read_loop read left size (got ++ chunk)
      ]
    ]

-- The size that `read_file` makes room for.
unfoldable pub file_room : Volume → ℕ → Result Status ℕ
file_room volume maximum = do
  volume.file_system
  volume.root
  volume.handle
  refuse (not volume.is_regular) invalid_parameter
  size ← volume.file_size
  refuse (size == 0 || ltb maximum size || ltb (2 ^ 64 - 1) size) bad_buffer_size
  ok size

-- `read_file`, whose loop has as many rounds as the file has bytes.
unfoldable pub read_file : Volume → ℕ → Option (Result Status (List ℕ))
read_file volume maximum = elim (file_room volume maximum) [
  | err e ↦ some (err e)
  | ok size ↦ read_loop volume.read size size []
]
