-- ===== src/Memory/Coverage/Ends.antt =====
-- The second loop of `coverage` over a range without gaps, and its number of rounds.
use native.Mathlib.Decide.{dec_lt}
use nextcore_efi.Common.{
  All, Bool, Bool-cases, List, [], arith, false, if◌then◌else◌, inl, inr, leb, ltb, max, min, refl,
  some, suc, true, zero, ℕ, ◌&&◌, ◌<◌, ◌∷◌, ◌≡◌, ◌≤◌,
}
use nextcore_efi.Memory.Descriptor.{Descriptor, page_size, limit_of, covers}
use nextcore_efi.Memory.Coverage.{reach, walk}
use nextcore_efi.Memory.Coverage.Counting.{count_at}
use nextcore_efi.Memory.Coverage.Tally.{meeting_count}
use nextcore_efi.Memory.Coverage.Walk.{reach-bounds}

-- `n` is behind every descriptor that covers the cursor, as far as `end`.
abbrev IsPast : ℕ → ℕ → ℕ → Descriptor → Type 0
IsPast end cursor n d = covers cursor d ≡ true → min (limit_of d) end ≤ n

IsPast-mono :
    (end cursor m n : ℕ) (ds : List Descriptor)
    → m ≤ n
    → All (IsPast end cursor m) ds
    → All (IsPast end cursor n) ds
IsPast-mono end cursor m n [] h v = tt
IsPast-mono end cursor m n (d ∷ ds) h v =
    ((λ c. omega (arith, v.0 c)), IsPast-mono end cursor m n ds h v.1)

reach-IsPast :
    (end cursor : ℕ) (ds : List Descriptor) (next : ℕ)
    → All (IsPast end cursor (reach page_size end cursor ds next)) ds
unfolding reach
reach-IsPast end cursor [] next = tt
reach-IsPast end cursor (d ∷ ds) next =
    let from =
      if leb d.phys_start cursor && ltb cursor (limit_of d)
      then max next (min (limit_of d) end)
      else next in
    ((λ c. ground (arith, reach-bounds end cursor ds from)), reach-IsPast end cursor ds from)

meeting_count_mono :
    (base later end : ℕ) (ds : List Descriptor)
    → base ≤ later
    → meeting_count later end ds ≤ meeting_count base end ds
unfolding meeting_count
meeting_count_mono base later end [] h = omega arith
meeting_count_mono base later end (d ∷ ds) h =
    ground (arith, meeting_count_mono base later end ds h)

-- A step past a covered cursor leaves one descriptor behind at least.
meeting_count-step :
    (cursor next end : ℕ) (ds : List Descriptor)
    → cursor < end
    → cursor ≤ next
    → All (IsPast end cursor next) ds
    → 1 ≤ count_at ds cursor
    → meeting_count next end ds < meeting_count cursor end ds
unfolding meeting_count count_at
meeting_count-step cursor next end [] c n v h = absurd (omega arith)
meeting_count-step cursor next end (d ∷ ds) c n v h = elim (Bool-cases (covers cursor d)) [
  | inl here ↦ ground (arith, v.0 here, meeting_count_mono cursor next end ds n)
  | inr not_here ↦ ground (
    arith,
    meeting_count-step cursor next end ds c n v.1,
    meeting_count_mono cursor next end ds n,
  )
]

-- A covered cursor moves.
reach-progress :
    (end cursor : ℕ) (ds : List Descriptor) (next : ℕ)
    → cursor < end
    → 1 ≤ count_at ds cursor
    → cursor < reach page_size end cursor ds next
unfolding reach count_at
reach-progress end cursor [] next c h = absurd (omega arith)
reach-progress end cursor (d ∷ ds) next c h = ground (
  arith,
  reach-bounds end cursor ds (max next (min (limit_of d) end)),
  reach-progress end cursor ds next c,
)

pub meeting_count-pos :
    (cursor end : ℕ) (ds : List Descriptor)
    → cursor < end
    → 1 ≤ count_at ds cursor
    → 1 ≤ meeting_count cursor end ds
unfolding meeting_count count_at
meeting_count-pos cursor end [] c h = h
meeting_count-pos cursor end (d ∷ ds) c h = ground (arith, meeting_count-pos cursor end ds c)

-- The walk ends at `end`, and from inside the loop if a round is left.
pub walk-ends :
    (rounds end : ℕ) (ds : List Descriptor) (cursor : ℕ)
    → cursor ≤ end
    → ((a : ℕ) → cursor ≤ a → a < end → 1 ≤ count_at ds a)
    → meeting_count cursor end ds ≤ rounds
    → (returned : Bool) × (walk page_size rounds end ds cursor ≡ some (end, returned))
      × (meeting_count cursor end ds < rounds → returned ≡ true)
unfolding walk
walk-ends zero end ds cursor c h m = elim (dec_lt cursor end) [
  | yes lt ↦ absurd (omega (arith, meeting_count-pos cursor end ds lt (h cursor (omega arith) lt)))
  | no ge ↦ (false, ground arith, λ p. absurd (omega arith))
]
walk-ends (suc rounds) end ds cursor c h m = elim (dec_lt cursor end) [
  | yes lt ↦
      let here = h cursor (omega arith) lt in
      let next = reach page_size end cursor ds cursor in
      let moved : cursor < next = reach-progress end cursor ds cursor lt here in
      let bounds = reach-bounds end cursor ds cursor in
      let fewer =
        meeting_count-step cursor next end ds lt (omega arith) (reach-IsPast end cursor ds cursor)
          here in
      let (returned, e, r) =
        walk-ends rounds end ds next (omega arith) (λ a lo hi. h a (omega arith) hi)
          (omega arith) in
      (returned, ground arith, λ p. r (omega arith))
  | no ge ↦ (true, ground arith, λ p. refl)
]
