-- ===== src/Boot/Config/Laws.antt =====
-- `read_config` of src/main.rs against `read_file` of src/firmware_io.rs.
use nextcore_efi.Common.{
  Bool, Bool-cases, List, Option, Result, Result-cases, [], ap, arith, err, false, inl, inr, length,
  ltb, map_err, none, ok, refl, refuse, some, suc, sym, true, zero, ℕ, ◌++◌, ◌-◌, ◌==◌, ◌>>=◌, ◌>>◌,
  ◌^◌, ◌||◌, ◌∙◌, ◌≡◌,
}
use nextcore_efi.Status.{Status, bad_buffer_size}
use nextcore_efi.Files.{Volume, read_loop, file_room, read_file}
use nextcore_efi.Boot.Config.{
  max_config_bytes, Fault, Reason, because, config_loop, config_room, read_config,
}

-- A result without the text of its failure.
abbrev pub unexplained {ℓ} : {A : Type ℓ} → Result Fault A → Result Status A
unexplained r = map_err (λ fault. fault.0) r

abbrev pub unexplained_end {ℓ} : {A : Type ℓ} → Option (Result Fault A) → Option (Result Status A)
unexplained_end none = none
unexplained_end (some r) = some (unexplained r)

loop_unexplained :
    (read : ℕ → ℕ → Result Status (List ℕ)) (left size : ℕ) (got : List ℕ)
    → unexplained_end (config_loop read left size got) ≡ read_loop read left size got
unfolding config_loop read_loop
loop_unexplained read zero size got = elim (Bool-cases (ltb (length got) size)) [
  | inl more ↦ rw more refl
  | inr over ↦ rw over refl
]
loop_unexplained read (suc left) size got = elim (Bool-cases (ltb (length got) size)) [
  | inr over ↦ rw over refl
  | inl more ↦ elim (Result-cases (read (length got) (size - length got))) [
    | inr (e, failed) ↦ rw (more, failed) refl
    | inl (chunk, r) ↦ elim (Bool-cases (length chunk == 0)) [
      | inl nothing ↦ rw (more, r, nothing) refl
      | inr some_bytes ↦ rw (more, r, some_bytes) (loop_unexplained read left size (got ++ chunk))
    ]
  ]
]

unexplained-because :
    {A B : Type 0} (reason : Reason) (m : Result Status A) (f : A → Result Fault B)
    → unexplained (because reason m >>= f) ≡ (m >>= λ a. unexplained (f a))
unexplained-because reason (ok a) f = refl
unexplained-because reason (err e) f = refl

unexplained-refuse :
    {B : Type 0} (b : Bool) (fault : Fault) (f : Unit {0} → Result Fault B)
    → unexplained (refuse b fault >>= f) ≡ (refuse b fault.0 >>= λ u. unexplained (f u))
unexplained-refuse true fault f = refl
unexplained-refuse false fault f = refl

-- The two tests of `read_config` on the size are the one of `read_file`.
size_unexplained :
    (size : ℕ)
    → unexplained (
        refuse (size == 0) (bad_buffer_size, Reason.empty_file)
        >> (refuse (ltb max_config_bytes size) (bad_buffer_size, Reason.too_large) >> ok size))
      ≡ (refuse (size == 0 || ltb max_config_bytes size || ltb (2 ^ 64 - 1) size) bad_buffer_size
          >> ok size)
size_unexplained size = elim (Bool-cases (size == 0)) [
  | inl zero_size ↦ rw zero_size refl
  | inr some_size ↦ elim (Bool-cases (ltb max_config_bytes size)) [
    | inl large ↦ rw (some_size, large) refl
    | inr small ↦
        let fits : ltb (2 ^ 64 - 1) size ≡ false = ground arith in rw (some_size, small, fits) refl
  ]
]

room_unexplained :
    (volume : Volume) → unexplained (config_room volume) ≡ file_room volume max_config_bytes
unfolding config_room file_room
room_unexplained volume = elim (Result-cases volume.file_system) [
  | inr (e, h) ↦ rw h refl
  | inl (u, h1) ↦ elim (Result-cases volume.root) [
    | inr (e, h) ↦ rw (h1, h) refl
    | inl (u, h2) ↦ elim (Result-cases volume.handle) [
      | inr (e, h) ↦ rw (h1, h2, h) refl
      | inl (u, h3) ↦ elim (Bool-cases volume.is_regular) [
        | inr odd ↦ rw (h1, h2, h3, odd) refl
        | inl regular ↦ elim (Result-cases volume.file_size) [
          | inr (e, h) ↦ rw (h1, h2, h3, regular, h) refl
          | inl (size, h4) ↦ rw (h1, h2, h3, regular, h4) (size_unexplained size)
        ]
      ]
    ]
  ]
]

-- `read_config` is `read_file` with a maximum of 1 MiB, if the texts of the failures are left out: the
-- same volumes are read, with the same bytes and the same statuses.
pub read_config-read_file :
    (volume : Volume) → unexplained_end (read_config volume) ≡ read_file volume max_config_bytes
unfolding read_config read_file
read_config-read_file volume = elim (Result-cases (config_room volume)) [
  | inr (fault, h) ↦
      let h' : file_room volume max_config_bytes ≡ err fault.0 =
        sym (room_unexplained volume) ∙ ap unexplained h in
      rw (read_config, read_file, h, h') refl
  | inl (size, h) ↦
      let h' : file_room volume max_config_bytes ≡ ok size =
        sym (room_unexplained volume) ∙ ap unexplained h in
      rw (read_config, read_file, h, h') (loop_unexplained volume.read size size [])
]
