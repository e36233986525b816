-- ===== src/Files/Runs.antt =====
-- A file of two bytes, delivered one by one.
use nextcore_efi.Common.{
  List, [], arith, err, length, none, ok, refl, some, true, ℕ, ◌++◌, ◌<◌, ◌∷◌, ◌≡◌, ◌≢◌,
}
use nextcore_efi.Status.{bad_buffer_size}
use nextcore_efi.Files.{Volume, read_loop, file_room, read_file}
use nextcore_efi.Files.Laws.{Delivers, IsOpen, read_file_ends, read_file-contents}

-- A read that delivers sevens, one at a time.
abbrev volume : Volume
volume = record {
  file_system = ok tt;
  root = ok tt;
  handle = ok tt;
  is_regular = true;
  file_size = ok 2;
  read = λ position room. ok (7 ∷ []);
}

read_run : read_file volume 100 ≡ some (ok (7 ∷ 7 ∷ []))
unfolding read_file file_room read_loop
read_run = refl

too_long : (a b : ℕ) (got left : List ℕ) → a ∷ b ∷ (got ++ left) ≡ 7 ∷ 7 ∷ [] → 0 < length left → ⊥
too_long a b [] [] e h = omega arith
too_long a b [] (x ∷ left) e h = cc
too_long a b (x ∷ got) left e h = cc

Delivers-sevens : Delivers volume.read (7 ∷ 7 ∷ [])
Delivers-sevens [] [] e h = absurd (omega arith)
Delivers-sevens [] (x ∷ left) e h = (7 ∷ [], left, refl, refl, cc)
Delivers-sevens (a ∷ []) [] e h = absurd (omega arith)
Delivers-sevens (a ∷ []) (x ∷ left) e h = (7 ∷ [], left, refl, refl, cc)
Delivers-sevens (a ∷ b ∷ got) left e h = absurd (too_long a b got left e h)

read_file_ends_example : read_file volume 100 ≢ none
read_file_ends_example = read_file_ends volume 100

-- A file of more bytes than the maximum is refused, one of as many is not.
room_run : file_room volume 2 ≡ ok 2
unfolding file_room
room_run = refl

small_room_run : file_room volume 1 ≡ err bad_buffer_size
unfolding file_room
small_room_run = refl

volume-IsOpen : IsOpen volume 2
volume-IsOpen = record {
  file_system = refl;
  root = refl;
  handle = refl;
  regular = refl;
  answered = refl;
}

read_file-contents_example : read_file volume 100 ≡ some (ok (7 ∷ 7 ∷ []))
read_file-contents_example =
    read_file-contents volume 100 (7 ∷ 7 ∷ []) volume-IsOpen (omega arith) (omega arith)
      (omega arith) Delivers-sevens
