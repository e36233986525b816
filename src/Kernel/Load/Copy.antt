-- ===== src/Kernel/Load/Copy.antt =====
-- The loop of `load_at` of src/loaded_kernel.rs that copies the segments, against the reference layout.
use nextcore_efi.Common.{
  Bool-cases, List, Option, Option-cases, [], ap, arith, drop, drop-add, drop-append, inl, inr, leb,
  leb→le, length, length-append, length-drop, length-replicate, length-take, none, refl, replicate,
  some, subst, suc, sym, take, take-append, true, zero, ℕ, ◌++◌, ◌+◌, ◌-◌, ◌∙◌, ◌∷◌, ◌≡◌,
}
use mathlib.Core.List.{append_assoc}
use nextcore_efi.Kernel.Load.{Segment, slice, overwrite, copy_payload, copy_segments}
use nextcore_efi.Kernel.Load.Layout.{
  payload, image_of, IsLaidOut, IsLaidOut-le, slice_size_in, drop_of_append,
}

overwrite-length :
    (at : ℕ) (ys xs zs : List ℕ) → overwrite at ys xs ≡ some zs → length zs ≡ length xs
overwrite-length at ys xs zs h = elim (Bool-cases (leb (at + length ys) (length xs))) [
  | inl fits ↦
      let made : take at xs ++ (ys ++ drop (at + length ys) xs) ≡ zs = ground arith in
      let low = leb→le (at + length ys) (length xs) fits in
      ap length (sym made)
      ∙ omega (
        arith,
        length-append (take at xs) (ys ++ drop (at + length ys) xs),
        length-append ys (drop (at + length ys) xs),
        length-take at xs,
        length-drop (at + length ys) xs,
      )
  | inr over ↦ absurd (ground arith)
]

copy_payload-length :
    (at : ℕ) (memory w : List ℕ) (p : Option (List ℕ))
    → copy_payload at memory p ≡ some w
    → length w ≡ length memory
copy_payload-length at memory w none h = cc
copy_payload-length at memory w (some bytes) h = overwrite-length at bytes memory w h

copy_none : (source : List ℕ) (ss : List Segment) → copy_segments source ss none ≡ none
unfolding copy_segments
copy_none source [] = refl
copy_none source (s ∷ ss) = refl

pub copy_segments-length :
    (source memory w : List ℕ) (ss : List Segment)
    → copy_segments source ss (some memory) ≡ some w
    → length w ≡ length memory
unfolding copy_segments
copy_segments-length source memory w [] h = ground arith
copy_segments-length source memory w (s ∷ ss) h =
    let cut = slice s.file_offset (s.file_offset + s.file_size) source in
    elim (Option-cases (copy_payload s.memory_offset memory cut)) [
      | inl failed ↦ absurd (
          subst (λ o. copy_segments source ss o ≡ some w → ⊥) (sym failed)
            (λ k. subst (λ o. o ≡ some w → ⊥) (sym (copy_none source ss)) (λ e. cc) k) h)
      | inr (m, made) ↦
          copy_segments-length source m w ss
            (subst (λ o. copy_segments source ss o ≡ some w) made h)
          ∙ copy_payload-length s.memory_offset memory m cut made
    ]

replicate_add :
    (a b : ℕ) (n : ℕ) (x : ℕ) → n ≡ a + b → replicate n x ≡ replicate a x ++ replicate b x
replicate_add zero b n x e = ap (λ k. replicate k x) (omega (arith, e))
replicate_add (suc a) b zero x e = absurd (omega (arith, e))
replicate_add (suc a) b (suc n) x e = ap (λ r. x ∷ r) (replicate_add a b n x (omega (arith, e)))

-- A write of as many bytes as stand behind a front.
overwrite_middle :
    (front old back bytes : List ℕ)
    → length old ≡ length bytes
    → overwrite (length front) bytes (front ++ (old ++ back)) ≡ some (front ++ (bytes ++ back))
overwrite_middle front old back bytes e =
    let xs = front ++ (old ++ back) in
    let fits : leb (length front + length bytes) (length xs) ≡ true =
      ground (arith, length-append front (old ++ back), length-append old back) in
    let end : drop (length front + length bytes) xs ≡ back =
      drop-add (length front) (length bytes) (length front + length bytes) xs refl
      ∙ ap (drop (length bytes)) (drop-append front (old ++ back))
      ∙ drop_of_append (length bytes) (old ++ back) old back e refl in
    rw (fits, take-append front (old ++ back), end) refl

-- A write of `n` bytes into zeros, behind `pre` and a gap.
overwrite_zeros :
    (pre bytes : List ℕ) (gap n tail rest size at : ℕ)
    → at ≡ length pre + gap
    → length bytes ≡ n
    → size ≡ gap + (n + (tail + rest))
    → overwrite at bytes (pre ++ replicate size 0)
      ≡ some ((pre ++ (replicate gap 0 ++ (bytes ++ replicate tail 0))) ++ replicate rest 0)
overwrite_zeros pre bytes gap n tail rest size at e l z =
    let front = pre ++ replicate gap 0 in
    let back = replicate tail 0 ++ replicate rest 0 in
    let zeros : pre ++ replicate size 0 ≡ front ++ (replicate n 0 ++ back) =
      ap (λ r. pre ++ r)
        (replicate_add gap (n + (tail + rest)) size 0 z
          ∙ ap (λ r. replicate gap 0 ++ r)
              (replicate_add n (tail + rest) (n + (tail + rest)) 0 refl
                ∙ ap (λ r. replicate n 0 ++ r) (replicate_add tail rest (tail + rest) 0 refl)))
      ∙ sym (append_assoc pre (replicate gap 0) (replicate n 0 ++ back)) in
    let place : at ≡ length front =
      omega (arith, e, length-append pre (replicate gap 0), length-replicate {A = ℕ} gap 0) in
    ap (overwrite at bytes) zeros
    ∙ ap (λ k. overwrite k bytes (front ++ (replicate n 0 ++ back))) place
    ∙ overwrite_middle front (replicate n 0) back bytes (length-replicate n 0 ∙ sym l)
    ∙ ap some (simp append_assoc)

-- Segments that are laid out are copied over zeros without a panic, and what is left is the layout.
pub copy_segments_layout :
    (source pre : List ℕ) (previous total : ℕ) (ss : List Segment)
    → length pre ≡ previous
    → IsLaidOut (length source) previous total ss
    → copy_segments source ss (some (pre ++ replicate (total - previous) 0))
      ≡ some (pre ++ image_of source previous total ss)
unfolding copy_segments image_of IsLaidOut
copy_segments_layout source pre previous total [] e h = refl
copy_segments_layout source pre previous total (s ∷ ss) e h =
    let end = s.memory_offset + s.memory_size in
    let bytes = payload source s in
    let g = s.memory_offset - previous in
    let t = s.memory_size - s.file_size in
    let within = IsLaidOut-le (length source) end total ss h.3 in
    let l : length bytes ≡ s.file_size = omega (
      arith,
      length-take s.file_size (drop s.file_offset source),
      length-drop s.file_offset source,
      h.2,
    ) in
    let pre' = pre ++ (replicate g 0 ++ (bytes ++ replicate t 0)) in
    let l' : length pre' ≡ end = omega (
      arith,
      length-append pre (replicate g 0 ++ (bytes ++ replicate t 0)),
      length-append (replicate g 0) (bytes ++ replicate t 0),
      length-append bytes (replicate t 0),
      length-replicate {A = ℕ} g 0,
      length-replicate {A = ℕ} t 0,
      h.0,
      h.1,
    ) in
    ap
      (λ o.
        copy_segments source ss
          (copy_payload s.memory_offset (pre ++ replicate (total - previous) 0) o))
      (slice_size_in s.file_offset s.file_size source h.2)
    ∙ ap (copy_segments source ss) (
        overwrite_zeros pre bytes g s.file_size t (total - end) (total - previous) s.memory_offset
          (omega (arith, h.0)) l (omega (arith, h.0, h.1)))
    ∙ copy_segments_layout source pre' end total ss l' h.3
    ∙ ap some (simp append_assoc)
