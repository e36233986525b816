-- ===== src/Files/Laws.antt =====
-- src/firmware_io.rs: the read loop against the contents of a file.
use mathlib.Core.List.{append-nil, append_assoc}
use nextcore_efi.Common.{
  Bool-cases, List, Result, Result-cases, [], ap, arith, false, inl, inr, length, length-append,
  ltb, lt→ltb, none, ok, refl, some, subst, suc, sym, true, zero, ℕ, ◌++◌, ◌+◌, ◌-◌, ◌<◌, ◌==◌, ◌∙◌,
  ◌∷◌, ◌^◌, ◌||◌, ◌≡◌, ◌≢◌, ◌≤◌,
}
use nextcore_efi.Status.{Status}
use nextcore_efi.Files.{Volume, read_loop, file_room, read_file}

-- A read behind the bytes `got` of a file delivers some of the bytes that are left, and not none.
abbrev pub Delivers : (ℕ → ℕ → Result Status (List ℕ)) → List ℕ → Type 0
Delivers read contents =
    (got left : List ℕ)
    → got ++ left ≡ contents
    → 0 < length left
    → (chunk : List ℕ) × (later : List ℕ) × (read (length got) (length left) ≡ ok chunk)
      × ((length chunk == 0) ≡ false)
      × (chunk ++ later ≡ left)

-- A file of which nothing is left has been read whole.
whole :
    (got contents : List ℕ)
    → got ++ [] ≡ contents
    → (ltb (length got) (length contents) ≡ false) × (got ≡ contents)
whole got contents e =
    let same : got ≡ contents = sym (append-nil got) ∙ e in
    (subst (λ c. ltb (length got) (length c) ≡ false) same (irreflexive (length got)), same)
  where
    irreflexive : (n : ℕ) → ltb n n ≡ false
    irreflexive n = ground arith

-- What is left of a file of which `got` is read.
still :
    (got left contents : List ℕ)
    → got ++ left ≡ contents
    → 0 < length left
    → (ltb (length got) (length contents) ≡ true) × (length contents - length got ≡ length left)
still got left contents e h =
    let total : length contents ≡ length got + length left =
      sym (ap length e) ∙ length-append got left in
    (lt→ltb (length got) (length contents) (omega (arith, total, h)), omega (arith, total))

shorter :
    (chunk later left : List ℕ) (rounds : ℕ)
    → (length chunk == 0) ≡ false
    → chunk ++ later ≡ left
    → length left ≤ suc rounds
    → length later ≤ rounds
shorter chunk later left rounds some_bytes e b =
    let total : length left ≡ length chunk + length later =
      sym (ap length e) ∙ length-append chunk later in
    ground (arith, total, some_bytes, b)

read_loop-contents :
    (read : ℕ → ℕ → Result Status (List ℕ)) (contents : List ℕ)
    → Delivers read contents
    → (rounds : ℕ) (got left : List ℕ) → got ++ left ≡ contents
    → length left ≤ rounds
    → read_loop read rounds (length contents) got ≡ some (ok contents)
unfolding read_loop
read_loop-contents read contents h zero got [] e b =
    let (over, same) = whole got contents e in rw over (ap (λ b. some (ok b)) same)
read_loop-contents read contents h zero got (x ∷ left) e b = absurd (omega arith)
read_loop-contents read contents h (suc rounds) got [] e b =
    let (over, same) = whole got contents e in rw over (ap (λ b. some (ok b)) same)
read_loop-contents read contents h (suc rounds) got (x ∷ left) e b =
    let (chunk, later, r, some_bytes, rest) = h got (x ∷ left) e (omega arith) in
    let (more, room) = still got (x ∷ left) contents e (omega arith) in
    rw (more, room, r, some_bytes)
      (read_loop-contents read contents h rounds (got ++ chunk) later
        (append_assoc got chunk later ∙ ap (λ ys. got ++ ys) rest ∙ e)
        (shorter chunk later (x ∷ left) rounds some_bytes rest b))

grown :
    (got chunk : List ℕ) (left size : ℕ)
    → (length chunk == 0) ≡ false
    → size ≤ length got + suc left
    → size ≤ length (got ++ chunk) + left
grown got chunk left size some_bytes b =
    let total = length-append got chunk in ground (arith, total, some_bytes, b)

read_loop_ends :
    (read : ℕ → ℕ → Result Status (List ℕ)) (left size : ℕ) (got : List ℕ)
    → size ≤ length got + left
    → read_loop read left size got ≢ none
unfolding read_loop
read_loop_ends read zero size got b =
    let over : ltb (length got) size ≡ false = ground (arith, b) in rw over (λ e. cc)
read_loop_ends read (suc left) size got b = elim (Bool-cases (ltb (length got) size)) [
  | inr over ↦ rw over (λ e. cc)
  | inl more ↦ elim (Result-cases (read (length got) (size - length got))) [
    | inr (e, failed) ↦ rw (more, failed) (λ e. cc)
    | inl (chunk, r) ↦ elim (Bool-cases (length chunk == 0)) [
      | inl nothing ↦ rw (more, r, nothing) (λ e. cc)
      | inr some_bytes ↦
          rw (more, r, some_bytes)
            (read_loop_ends read left size (got ++ chunk) (grown got chunk left size some_bytes b))
    ]
  ]
]

-- Whatever the firmware answers, the loop ends within as many rounds as the file has bytes.
pub read_file_ends : (volume : Volume) (maximum : ℕ) → read_file volume maximum ≢ none
unfolding read_file
read_file_ends volume maximum = elim (Result-cases (file_room volume maximum)) [
  | inr (e, refused) ↦ rw (read_file, refused) (λ e. cc)
  | inl (size, room) ↦ rw (read_file, room) (read_loop_ends volume.read size size [] (omega arith))
]

-- A regular file that opens and answers its size.
pub record IsOpen (volume : Volume) (size : ℕ) : Type 0 where
  pub file_system : volume.file_system ≡ ok tt
  pub root : volume.root ≡ ok tt
  pub handle : volume.handle ≡ ok tt
  pub regular : volume.is_regular ≡ true
  pub answered : volume.file_size ≡ ok size

file_room-IsOpen :
    (volume : Volume) (maximum size : ℕ)
    → IsOpen volume size
    → 0 < size
    → size ≤ maximum
    → size < 2 ^ 64
    → file_room volume maximum ≡ ok size
unfolding file_room
file_room-IsOpen volume maximum size o some_bytes within fits =
    let room : (size == 0 || ltb maximum size || ltb (2 ^ 64 - 1) size) ≡ false = ground arith in
    rw (o.file_system, o.root, o.handle, o.regular, o.answered, room) refl

-- A regular file of 1 to `maximum` bytes, fewer than 2 ^ 64, that opens and answers its size is read
-- whole, in as many rounds as it has bytes at most, however the firmware cuts it, as long as each read
-- delivers some of the bytes that are left.
pub read_file-contents :
    (volume : Volume) (maximum : ℕ) (contents : List ℕ)
    → IsOpen volume (length contents)
    → 0 < length contents
    → length contents ≤ maximum
    → length contents < 2 ^ 64
    → Delivers volume.read contents
    → read_file volume maximum ≡ some (ok contents)
unfolding read_file
read_file-contents volume maximum contents open_file some_bytes within fits h =
    rw
      (
        read_file,
        file_room-IsOpen volume maximum (length contents) open_file some_bytes within fits,
      )
      (read_loop-contents volume.read contents h (length contents) [] contents refl (omega arith))
