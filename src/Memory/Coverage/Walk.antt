-- ===== src/Memory/Coverage/Walk.antt =====
-- The second loop of `coverage`, and gaps in the range.
use native.Mathlib.Decide.{dec_lt}
use nextcore_efi.Common.{
  Bool, Bool-cases, List, [], arith, inl, inr, max, min, some, suc, zero, ℕ, ◌<◌, ◌∷◌, ◌≡◌, ◌≤◌,
}
use nextcore_efi.Memory.Descriptor.{Descriptor, page_size, limit_of, covers}
use nextcore_efi.Memory.Coverage.{reach, walk}
use nextcore_efi.Memory.Coverage.Counting.{count_at}

-- `reach` does not go back, stays within `end`, and covers what it passes over.
pub reach-bounds :
    (end cursor : ℕ) (ds : List Descriptor) (next : ℕ)
    → (next ≤ reach page_size end cursor ds next)
      × (reach page_size end cursor ds next ≤ max next end)
unfolding reach
reach-bounds end cursor [] next = omega arith
reach-bounds end cursor (d ∷ ds) next = ground (
  arith,
  reach-bounds end cursor ds (max next (min (limit_of d) end)),
  reach-bounds end cursor ds next,
)

-- An address between the cursor and where it goes, and past `next`, is covered by a descriptor.
reach-covered :
    (end cursor : ℕ) (ds : List Descriptor) (next a : ℕ)
    → next ≤ a
    → cursor ≤ a
    → a < reach page_size end cursor ds next
    → 1 ≤ count_at ds a
unfolding reach count_at
reach-covered end cursor [] next a lo c hi = absurd (omega arith)
reach-covered end cursor (d ∷ ds) next a lo c hi = elim (Bool-cases (covers a d)) [
  | inl here ↦ ground arith
  | inr not_here ↦ ground (
    arith,
    reach-covered end cursor ds (max next (min (limit_of d) end)) a,
    reach-covered end cursor ds next a,
  )
]

-- A walk that gets from `cursor` to `end` leaves no address uncovered.
pub walk-covered :
    (rounds end : ℕ) (ds : List Descriptor) (cursor : ℕ) (returned : Bool) (a : ℕ)
    → walk page_size rounds end ds cursor ≡ some (end, returned)
    → cursor ≤ a
    → a < end
    → 1 ≤ count_at ds a
unfolding walk
walk-covered zero end ds cursor returned a e lo hi = absurd (ground arith)
walk-covered (suc rounds) end ds cursor returned a e lo hi =
    let next = reach page_size end cursor ds cursor in
    elim (dec_lt a next) [
      | yes passed ↦ reach-covered end cursor ds cursor a lo lo passed
      | no ahead ↦ walk-covered rounds end ds next returned a (ground arith) (omega arith) hi
    ]
