-- ===== src/Kernel/Load/Check.antt =====
-- The loop of `load_at` of src/loaded_kernel.rs that verifies the memory, against the reference layout.
use nextcore_efi.Common.{
  All, IsByte, List, [], ap, arith, drop, drop-add, length, length-drop, length-replicate,
  length-take, none, refl, replicate, some, suc, sym, take, true, zero, ℕ, ◌++◌, ◌+◌, ◌-◌, ◌↔◌, ◌∙◌,
  ◌∷◌, ◌≡◌, ◌≤◌,
}
use nextcore_efi.Kernel.Load.{
  Segment, range_matches, and_then, payload_matches, segment_matches, check_segments,
}
use nextcore_efi.Kernel.Load.Layout.{
  payload, image_of, IsLaidOut, IsLaidOut-le, drop_cut, take_of_append, drop_of_append,
  and_then-true, and_then_join, range_matches_iff, payload_matches_iff,
}

drop_piece :
    (from n to : ℕ) (xs piece : List ℕ)
    → to ≡ from + n
    → take n (drop from xs) ≡ piece
    → drop from xs ≡ piece ++ drop to xs
drop_piece from n to xs piece e h = drop_cut from n to xs e ∙ ap (λ r. r ++ drop to xs) h

take_all : (n : ℕ) (xs : List ℕ) → length xs ≤ n → take n xs ≡ xs
take_all zero [] h = refl
take_all zero (x ∷ xs) h = absurd (omega arith)
take_all (suc n) [] h = refl
take_all (suc n) (x ∷ xs) h = ap (λ r. x ∷ r) (take_all n xs (omega arith))

-- What a segment puts in front of the memory behind it.
abbrev stretch : List ℕ → ℕ → Segment → List ℕ → List ℕ
stretch source previous s rest =
    replicate (s.memory_offset - previous) 0
    ++ (payload source s ++ (replicate (s.memory_size - s.file_size) 0 ++ rest))

module _ (base : ℕ) (memory source : List ℕ) (bytes : All IsByte memory)
    (h : All IsByte source) where
  abbrev Passes : ℕ → Segment → Type 0
  Passes previous s =
      (previous ≤ s.memory_offset)
      × (s.file_size ≤ s.memory_size)
      × (s.file_offset + s.file_size ≤ length source)
      × (s.memory_offset + s.memory_size ≤ length memory)
      × (drop previous memory
          ≡ stretch source previous s (drop (s.memory_offset + s.memory_size) memory))

  segment-Passes :
      (previous : ℕ) (s : Segment)
      → segment_matches base previous source memory s ≡ some true
      → Passes previous s
  segment-Passes previous s e =
      let copied = s.memory_offset + s.file_size in
      let end = s.memory_offset + s.memory_size in
      let (gap, others) =
        and_then-true (range_matches base previous s.memory_offset memory none)
          (and_then (payload_matches base source memory s)
            (range_matches base copied end memory none))
          e in
      let (file, tail) =
        and_then-true (payload_matches base source memory s)
          (range_matches base copied end memory none) others in
      let (g0, g1, g2) = (range_matches_iff base memory bytes previous s.memory_offset).0 gap in
      let (p0, p1, p2) = (payload_matches_iff base memory bytes source s h).0 file in
      let (t0, t1, t2) = (range_matches_iff base memory bytes copied end).0 tail in
      let t3 : end - copied ≡ s.memory_size - s.file_size = omega arith in
      (
        g0,
        omega arith,
        p1,
        t1,
        drop_piece previous (s.memory_offset - previous) s.memory_offset memory
              (replicate (s.memory_offset - previous) 0) (omega arith) g2
            ∙ ap (λ r. replicate (s.memory_offset - previous) 0 ++ r)
                (drop_piece s.memory_offset s.file_size copied memory (payload source s) refl p2
                  ∙ ap (λ r. payload source s ++ r)
                      (drop_piece copied (end - copied) end memory (replicate (end - copied) 0)
                          (omega arith) t2
                        ∙ ap (λ n. replicate n 0 ++ drop end memory) t3)),
      )

  passes_segment :
      (previous : ℕ) (s : Segment) (rest : List ℕ)
      → previous ≤ s.memory_offset
      → s.file_size ≤ s.memory_size
      → s.file_offset + s.file_size ≤ length source
      → s.memory_offset + s.memory_size ≤ length memory
      → drop previous memory ≡ stretch source previous s rest
      → (segment_matches base previous source memory s ≡ some true)
        × (drop (s.memory_offset + s.memory_size) memory ≡ rest)
  passes_segment previous s rest g0 t0 p1 t1 e =
      let g = s.memory_offset - previous in
      let t = s.memory_size - s.file_size in
      let copied = s.memory_offset + s.file_size in
      let end = s.memory_offset + s.memory_size in
      let lg : length (replicate g 0) ≡ g = length-replicate g 0 in
      let lt : length (replicate t 0) ≡ t = length-replicate t 0 in
      let lp : length (payload source s) ≡ s.file_size = omega (
        arith,
        length-take s.file_size (drop s.file_offset source),
        length-drop s.file_offset source,
      ) in
      let behind_gap =
        drop-add previous g s.memory_offset memory (omega arith)
        ∙ drop_of_append g (drop previous memory) (replicate g 0)
            (payload source s ++ (replicate t 0 ++ rest)) lg e in
      let behind_file =
        drop-add s.memory_offset s.file_size copied memory refl
        ∙ drop_of_append s.file_size (drop s.memory_offset memory) (payload source s)
            (replicate t 0 ++ rest) lp behind_gap in
      let n : end - copied ≡ t = omega arith in
      (
        and_then_join (range_matches base previous s.memory_offset memory none)
            (and_then (payload_matches base source memory s)
              (range_matches base copied end memory none))
            ((range_matches_iff base memory bytes previous s.memory_offset).1 (
              g0,
              omega arith,
              take_of_append g (drop previous memory) (replicate g 0)
                  (payload source s ++ (replicate t 0 ++ rest)) lg e,
            ))
            (and_then_join (payload_matches base source memory s)
              (range_matches base copied end memory none)
              ((payload_matches_iff base memory bytes source s h).1 (
                omega arith,
                p1,
                take_of_append s.file_size (drop s.memory_offset memory) (payload source s)
                    (replicate t 0 ++ rest) lp behind_gap,
              ))
              ((range_matches_iff base memory bytes copied end).1 (
                omega arith,
                t1,
                ap (λ k. take k (drop copied memory)) n
                    ∙ take_of_append t (drop copied memory) (replicate t 0) rest lt behind_file
                    ∙ ap (λ k. replicate k 0) (sym n),
              ))),
        drop-add copied t end memory (omega arith)
            ∙ drop_of_append t (drop copied memory) (replicate t 0) rest lt behind_file,
      )

  -- The verification passes exactly if the segments are laid out in the memory, in order and each with
  -- its bytes of the source, and every other byte behind `previous` is zero.
  pub check_segments_iff :
      (previous : ℕ) (ss : List Segment)
      → (check_segments base previous source ss memory ≡ some true) ↔ (
          IsLaidOut (length source) previous (length memory) ss
          × (drop previous memory ≡ image_of source previous (length memory) ss))
  unfolding check_segments IsLaidOut image_of
  check_segments_iff previous [] =
      let rest = drop previous memory in
      let whole : take (length memory - previous) rest ≡ rest =
        take_all (length memory - previous) rest (omega (arith, length-drop previous memory)) in
      let (to, from) = range_matches_iff base memory bytes previous (length memory) in
      (
        λ e. let (low, high, same) = to e in (low, sym whole ∙ same),
        λ (low, same). from (low, omega arith, whole ∙ same),
      )
  check_segments_iff previous (s ∷ ss) =
      let end = s.memory_offset + s.memory_size in
      let (to, from) = check_segments_iff end ss in
      (
        λ e.
            let (first, others) =
              and_then-true (segment_matches base previous source memory s)
                (check_segments base end source ss memory) e in
            let (g, t, p, high, same) = segment-Passes previous s first in
            let (laid, behind) = to others in
            ((g, t, p, laid), same ∙ ap (stretch source previous s) behind),
        λ ((g, t, p, laid), same).
            let rest = image_of source end (length memory) ss in
            let (first, behind) =
              passes_segment previous s rest g t p
                (IsLaidOut-le (length source) end (length memory) ss laid) same in
            and_then_join (segment_matches base previous source memory s)
              (check_segments base end source ss memory) first (from (laid, behind)),
      )
