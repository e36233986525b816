-- ===== src/Kernel/Load/Layout.antt =====
-- The reference layout of a plan over zeros, and the loops of `load_at` of src/loaded_kernel.rs that
-- copy and verify it.
use nextcore_efi.Common.{
  All, All-drop, All-take, Bool, IsByte, List, Option, [], ap, arith, drop, drop-add, drop-append,
  false, length, length-drop, length-take, none, refl, replicate, some, subst, sym, take,
  take-append, take-append-drop, true, ℕ, ◌++◌, ◌+◌, ◌-◌, ◌↔◌, ◌∙◌, ◌∷◌, ◌≡◌, ◌≤◌,
}
use nextcore_efi.Kernel.Verify.{verify_memory}
use nextcore_efi.Kernel.Verify.Laws.{verify_memory_iff}
use nextcore_efi.Kernel.Load.{
  Segment, slice, range_matches, and_then, payload_matches, matched, file_matches,
}

-- The bytes of a segment that the file holds.
abbrev pub payload : List ℕ → Segment → List ℕ
payload source s = take s.file_size (drop s.file_offset source)

-- What a loaded memory of `total` bytes holds from `previous` on: zeros but for the payloads.
unfoldable pub image_of : List ℕ → (previous total : ℕ) → List Segment → List ℕ
image_of source previous total [] = replicate (total - previous) 0
image_of source previous total (s ∷ ss) =
    replicate (s.memory_offset - previous) 0
    ++ (payload source s
        ++ (replicate (s.memory_size - s.file_size) 0
            ++ image_of source (s.memory_offset + s.memory_size) total ss))

-- Segments in order, within a file of `n` bytes and a memory of `total`.
unfoldable pub IsLaidOut : (n previous total : ℕ) → List Segment → Type 0
IsLaidOut n previous total [] = previous ≤ total
IsLaidOut n previous total (s ∷ ss) =
    (previous ≤ s.memory_offset)
    × (s.file_size ≤ s.memory_size)
    × (s.file_offset + s.file_size ≤ n)
    × IsLaidOut n (s.memory_offset + s.memory_size) total ss

pub IsLaidOut-le :
    (n previous total : ℕ) (ss : List Segment) → IsLaidOut n previous total ss → previous ≤ total
unfolding IsLaidOut
IsLaidOut-le n previous total [] h = h
IsLaidOut-le n previous total (s ∷ ss) h =
    omega (arith, IsLaidOut-le n (s.memory_offset + s.memory_size) total ss h.3)

length-slice :
    (from n : ℕ) (xs : List ℕ) → from + n ≤ length xs → length (take n (drop from xs)) ≡ n
length-slice from n xs h = omega (arith, length-take n (drop from xs), length-drop from xs)

IsByte-slice : (from n : ℕ) (xs : List ℕ) → All IsByte xs → All IsByte (take n (drop from xs))
IsByte-slice from n xs h = All-take IsByte n (drop from xs) (All-drop IsByte from xs h)

slice_in :
    (from to : ℕ) (xs : List ℕ)
    → from ≤ to
    → to ≤ length xs
    → slice from to xs ≡ some (take (to - from) (drop from xs))
slice_in from to xs h k = ground arith

slice_out :
    (from to : ℕ) (xs ys : List ℕ) → slice from to xs ≡ some ys → (from ≤ to) × (to ≤ length xs)
slice_out from to xs ys h = ground arith

matched-true :
    (address : ℕ) (expected o : Option (List ℕ))
    → matched address expected o ≡ some true
    → (ys : List ℕ) × (o ≡ some ys) × (verify_memory address ys expected ≡ true)
matched-true address expected none h = cc
matched-true address expected (some ys) h = (ys, refl, cc)

file_matches-true :
    (address : ℕ) (p o : Option (List ℕ))
    → file_matches address p o ≡ some true
    → (bytes : List ℕ) × (p ≡ some bytes) × (matched address (some bytes) o ≡ some true)
file_matches-true address none o h = cc
file_matches-true address (some bytes) o h = (bytes, refl, h)

slice-eq :
    (from to : ℕ) (xs ys : List ℕ)
    → slice from to xs ≡ some ys
    → ys ≡ take (to - from) (drop from xs)
slice-eq from to xs ys h = ground arith

pub slice_size_in :
    (at n : ℕ) (xs : List ℕ)
    → at + n ≤ length xs
    → slice at (at + n) xs ≡ some (take n (drop at xs))
slice_size_in at n xs h =
    slice_in at (at + n) xs (omega arith) h ∙ ap (λ k. some (take k (drop at xs))) (omega arith)

slice_size_out :
    (at n : ℕ) (xs ys : List ℕ)
    → slice at (at + n) xs ≡ some ys
    → (at + n ≤ length xs) × (ys ≡ take n (drop at xs))
slice_size_out at n xs ys h = (
  (slice_out at (at + n) xs ys h).1,
  slice-eq at (at + n) xs ys h ∙ ap (λ k. take k (drop at xs)) (omega arith),
)

pub and_then-true :
    (a b : Option Bool) → and_then a b ≡ some true → (a ≡ some true) × (b ≡ some true)
and_then-true none b h = cc
and_then-true (some false) b h = cc
and_then-true (some true) b h = (refl, h)

pub and_then_join : (a b : Option Bool) → a ≡ some true → b ≡ some true → and_then a b ≡ some true
and_then_join a b h k = rw (h, k) refl

payload_of_some : (xs ys : List ℕ) → some xs ≡ some ys → xs ≡ ys
payload_of_some xs ys h = cc

-- The part of a list from one place on, cut at a later place.
pub drop_cut :
    (from n to : ℕ) (xs : List ℕ)
    → to ≡ from + n
    → drop from xs ≡ take n (drop from xs) ++ drop to xs
drop_cut from n to xs e =
    sym (take-append-drop n (drop from xs))
    ∙ ap (λ r. take n (drop from xs) ++ r) (sym (drop-add from n to xs e))

pub take_of_append : (n : ℕ) (xs ys zs : List ℕ) → length ys ≡ n → xs ≡ ys ++ zs → take n xs ≡ ys
take_of_append n xs ys zs e h =
    ap (take n) h ∙ ap (λ k. take k (ys ++ zs)) (sym e) ∙ take-append ys zs

pub drop_of_append : (n : ℕ) (xs ys zs : List ℕ) → length ys ≡ n → xs ≡ ys ++ zs → drop n xs ≡ zs
drop_of_append n xs ys zs e h =
    ap (drop n) h ∙ ap (λ k. drop k (ys ++ zs)) (sym e) ∙ drop-append ys zs

module _ (base : ℕ) (memory : List ℕ) (bytes : All IsByte memory) where
  pub range_matches_iff :
      (from to : ℕ)
      → (range_matches base from to memory none ≡ some true) ↔ (
          (from ≤ to)
          × (to ≤ length memory)
          × (take (to - from) (drop from memory) ≡ replicate (to - from) 0))
  range_matches_iff from to =
      let actual = take (to - from) (drop from memory) in
      let zeros =
        verify_memory_iff (base + from) actual none (IsByte-slice from (to - from) memory bytes)
          (λ bs e. cc) in
      let len : from ≤ to → to ≤ length memory → length actual ≡ to - from =
        λ h k. length-slice from (to - from) memory (omega arith) in
      (
        λ h.
            let (ys, made, same) = matched-true (base + from) none (slice from to memory) h in
            let (low, high) = slice_out from to memory ys made in
            let same' : verify_memory (base + from) actual none ≡ true =
              subst (λ a. verify_memory (base + from) a none ≡ true)
                (slice-eq from to memory ys made) same in
            (low, high, zeros.0 same' ∙ ap (λ n. replicate n 0) (len low high)),
        λ (low, high, e).
            ap (matched (base + from) none) (slice_in from to memory low high)
            ∙ ap some (zeros.1 (e ∙ ap (λ n. replicate n 0) (sym (len low high)))),
      )

  pub payload_matches_iff :
      (source : List ℕ) (s : Segment)
      → All IsByte source
      → (payload_matches base source memory s ≡ some true) ↔ (
          (s.memory_offset + s.file_size ≤ length memory)
          × (s.file_offset + s.file_size ≤ length source)
          × (take s.file_size (drop s.memory_offset memory) ≡ payload source s))
  payload_matches_iff source s h =
      let at = s.memory_offset in
      let n = s.file_size in
      let actual = take n (drop at memory) in
      let expected = payload source s in
      let address = base + at in
      let fits : at + n ≤ length memory → length actual ≡ n = λ k. length-slice at n memory k in
      let same =
        verify_memory_iff address actual (some expected) (IsByte-slice at n memory bytes) (λ bs e.
          subst (All IsByte) (payload_of_some expected bs e)
            (IsByte-slice s.file_offset n source h)) in
      (
        λ k.
            let (file, cut, m) =
              file_matches-true address (slice s.file_offset (s.file_offset + n) source)
                (slice at (at + n) memory) k in
            let (ys, made, v) = matched-true address (some file) (slice at (at + n) memory) m in
            let (high, is_actual) = slice_size_out at n memory ys made in
            let (within, is_file) = slice_size_out s.file_offset n source file cut in
            (
              high,
              within,
              same.0 (
                  subst (λ a. verify_memory address a (some expected) ≡ true) is_actual
                    (subst (λ f. verify_memory address ys (some f) ≡ true) is_file v)),
            ),
        λ (high, within, e).
            ap (λ p. file_matches address p (slice at (at + n) memory))
              (slice_size_in s.file_offset n source within)
            ∙ ap (matched address (some expected)) (slice_size_in at n memory high)
            ∙ ap some (same.1 e),
      )
