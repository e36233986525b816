-- ===== src/Memory/Coverage/Tally.antt =====
-- The first loop adds up what each descriptor gives to the range.
use nextcore_efi.Common.{
  >>=-eq-ok, All, List, Option, Result, [], arith, if◌then◌else◌, max, min, none, ok, some, true, ℕ,
  ◌+◌, ◌-◌, ◌<◌, ◌^◌, ◌∷◌, ◌≡◌,
}
use nextcore_efi.Status.{Status}
use nextcore_efi.Memory.Descriptor.{Descriptor, page_size, limit_of, IsInRange, IsAligned, meets}
use nextcore_efi.Memory.Coverage.{share, share_arm, add_share, tally}
use nextcore_efi.Memory.Coverage.Counting.{one_if, shared_bytes}

-- The number of descriptors that meet the range.
unfoldable pub meeting_count : ℕ → ℕ → List Descriptor → ℕ
meeting_count base end [] = 0
meeting_count base end (d ∷ ds) = one_if (meets base end d) + meeting_count base end ds

abbrev pub part_of : ℕ → ℕ → Descriptor → Option ℕ
part_of base end d =
    if meets base end d then some (min end (limit_of d) - max base d.phys_start) else none

-- A descriptor that `coverage` lets through: no overflow, aligned, and of the expected type if it
-- meets the range.
abbrev pub IsFair : ℕ → ℕ → ℕ → Descriptor → Type 0
IsFair base end expected d = IsInRange d × IsAligned d × (meets base end d ≡ true → d.ty ≡ expected)

-- The same for `validate_map`, which asks for alignment only where the range is met.
abbrev pub IsFairArm : ℕ → ℕ → ℕ → Descriptor → Type 0
IsFairArm base end expected d =
    IsInRange d × (meets base end d ≡ true → (d.ty ≡ expected) × IsAligned d)

pub share_sound :
    (base end expected : ℕ) (d : Descriptor) (part : Option ℕ)
    → share page_size base end expected d ≡ ok part
    → IsFair base end expected d × (part ≡ part_of base end d)
unfolding share
share_sound base end expected d part e = ground arith

pub share_complete :
    (base end expected : ℕ) (d : Descriptor)
    → IsFair base end expected d
    → share page_size base end expected d ≡ ok (part_of base end d)
unfolding share
share_complete base end expected d v = ground arith

pub share_arm_sound :
    (base end expected : ℕ) (d : Descriptor) (part : Option ℕ)
    → share_arm base end expected d ≡ ok part
    → IsFairArm base end expected d × (part ≡ part_of base end d)
unfolding share_arm
share_arm_sound base end expected d part e = ground arith

pub share_arm_complete :
    (base end expected : ℕ) (d : Descriptor)
    → IsFairArm base end expected d
    → share_arm base end expected d ≡ ok (part_of base end d)
unfolding share_arm
share_arm_complete base end expected d v = ground arith

module _ (base end : ℕ) (f : Descriptor → Result Status (Option ℕ)) (P : Descriptor → Type 0) where
  pub tally_sound :
      ((d : Descriptor) (part : Option ℕ) → f d ≡ ok part → P d × (part ≡ part_of base end d))
      → (ds : List Descriptor) (total meeting sum count : ℕ)
      → tally f ds total meeting ≡ ok (sum, count)
      → All P ds
        × (sum ≡ total + shared_bytes base end ds)
        × (count ≡ meeting + meeting_count base end ds)
  unfolding tally shared_bytes meeting_count add_share
  tally_sound sound [] total meeting sum count e = (tt, ground arith, ground arith)
  tally_sound sound (d ∷ ds) total meeting sum count e =
      let (part, p, rest) = >>=-eq-ok (f d) _ e in
      let ((sum', count'), q, more) = >>=-eq-ok (add_share part total meeting) _ rest in
      let (fair, eq) = sound d part p in
      let (all_fair, s, c) = tally_sound sound ds sum' count' sum count more in
      ((fair, all_fair), ground arith, ground arith)

  -- Where the sum fits 64 bits, fair descriptors are added up with no error.
  pub tally_complete :
      ((d : Descriptor) → P d → f d ≡ ok (part_of base end d))
      → (ds : List Descriptor) (total meeting : ℕ) → All P ds
      → total + shared_bytes base end ds < 2 ^ 64
      → tally f ds total meeting
        ≡ ok (total + shared_bytes base end ds, meeting + meeting_count base end ds)
  unfolding tally shared_bytes meeting_count add_share
  tally_complete complete [] total meeting v h = ground arith
  tally_complete complete (d ∷ ds) total meeting v h = ground (
    arith,
    complete d v.0,
    tally_complete complete ds (total + (min end (limit_of d) - max base d.phys_start))
        (meeting + 1) v.1,
    tally_complete complete ds total meeting v.1,
  )
