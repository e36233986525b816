-- ===== src/Memory/Coverage/Exact.antt =====
-- What the answers of `coverage` and `validate_entries` mean, in both directions.
use nextcore_efi.Common.{
  >>=-eq-ok, All, Bool, List, Option, ap, arith, checked_add, none, not, ok, ok_or, refuse, some,
  subst, suc, sym, true, zero, ℕ, ◌+◌, ◌-◌, ◌<◌, ◌==◌, ◌^◌, ◌↔◌, ◌∙◌, ◌≡◌, ◌≤◌,
}
use nextcore_efi.Status.{Status, compromised_data}
use nextcore_efi.Memory.Descriptor.{Descriptor, page_size}
use nextcore_efi.Memory.Coverage.{
  reach, share, share_arm, tally, walk, finish, finish_arm, coverage, validate_entries,
}
use nextcore_efi.Memory.Coverage.Counting.{
  count_at, shared_bytes, sum_range-count_at, all_one_of_sum, sum_range_of_ones,
}
use nextcore_efi.Memory.Coverage.Tally.{
  meeting_count, IsFair, IsFairArm, share_sound, share_complete, share_arm_sound,
  share_arm_complete, tally_sound, tally_complete,
}
use nextcore_efi.Memory.Coverage.Walk.{walk-covered}
use nextcore_efi.Memory.Coverage.Ends.{walk-ends}

-- Every byte of the range lies in one descriptor and in no second one.
abbrev pub IsExact : List Descriptor → ℕ → ℕ → Type 0
IsExact ds base bytes = (i : ℕ) → i < bytes → count_at ds (base + i) ≡ 1

IsExact-of_walk :
    (ds : List Descriptor) (base bytes rounds : ℕ) (returned : Bool)
    → shared_bytes base (base + bytes) ds ≡ bytes
    → walk page_size rounds (base + bytes) ds base ≡ some (base + bytes, returned)
    → IsExact ds base bytes
IsExact-of_walk ds base bytes rounds returned s w =
    all_one_of_sum (count_at ds) base bytes
      (λ i hi.
        walk-covered rounds (base + bytes) ds base returned (base + i) w (omega arith)
          (omega arith))
      (sum_range-count_at ds base bytes ∙ s)

shared_of_exact :
    (ds : List Descriptor) (base bytes : ℕ)
    → IsExact ds base bytes
    → shared_bytes base (base + bytes) ds ≡ bytes
shared_of_exact ds base bytes x =
    sym (sum_range-count_at ds base bytes) ∙ sum_range_of_ones (count_at ds) base bytes x

covered_of_exact :
    (ds : List Descriptor) (base bytes : ℕ)
    → IsExact ds base bytes
    → (a : ℕ) → base ≤ a
    → a < base + bytes
    → 1 ≤ count_at ds a
covered_of_exact ds base bytes x a lo hi =
    let same : base + (a - base) ≡ a = omega arith in
    omega (arith, x (a - base) (omega arith), ap (count_at ds) same)

-- What a success of `finish` says of the walk.
finish_ok :
    (end meeting n : ℕ) (w : Option (ℕ × Bool))
    → finish end meeting w ≡ ok n
    → (returned : Bool) × (w ≡ some (end, returned)) × (n ≡ meeting)
finish_ok end meeting n none e = cc
finish_ok end meeting n (some (cursor, returned)) e = (returned, ground arith, ground arith)

finish_arm_ok :
    (rounds end : ℕ) (ds : List Descriptor) (cursor : ℕ)
    → finish_arm (walk page_size rounds end ds cursor) ≡ ok tt
    → walk page_size rounds end ds cursor ≡ some (end, true)
unfolding walk
finish_arm_ok zero end ds cursor e = cc
finish_arm_ok (suc rounds) end ds cursor e =
    ground (arith, finish_arm_ok rounds end ds (reach page_size end cursor ds cursor))

end_of_range :
    (base bytes end : ℕ)
    → ok_or {E = Status} (checked_add base bytes) compromised_data ≡ ok end
    → (base + bytes < 2 ^ 64) × (end ≡ base + bytes)
end_of_range base bytes end e = ground arith

pub coverage_ok :
    (ds : List Descriptor) (base bytes expected n : ℕ)
    → coverage page_size ds base bytes expected ≡ ok n
    → (base + bytes < 2 ^ 64)
      × All (IsFair base (base + bytes) expected) ds
      × IsExact ds base bytes
      × (n ≡ meeting_count base (base + bytes) ds)
unfolding coverage
coverage_ok ds base bytes expected n e =
    let (end, c, r) = >>=-eq-ok (ok_or (checked_add base bytes) compromised_data) _ e in
    let (fits, same) = end_of_range base bytes end c in
    let ((total, meeting), t, r') =
      >>=-eq-ok (tally (share page_size base end expected) ds 0 0) _ r in
    let (_, full, f) = >>=-eq-ok (refuse (not (total == bytes)) compromised_data) _ r' in
    let (returned, w, count) = finish_ok end meeting n (walk page_size meeting end ds base) f in
    let (fair, sum, met) =
      tally_sound base end (share page_size base end expected) (IsFair base end expected)
        (share_sound base end expected) ds 0 0 total meeting t in
    let parts : All (IsFair base end expected) ds
        × (shared_bytes base end ds ≡ bytes)
        × (walk page_size meeting end ds base ≡ some (end, returned))
        × (n ≡ meeting_count base end ds) =
      (fair, ground arith, w, omega arith) in
    let at_end =
      subst
        (λ x.
          All (IsFair base x expected) ds
          × (shared_bytes base x ds ≡ bytes)
          × (walk page_size meeting x ds base ≡ some (x, returned))
          × (n ≡ meeting_count base x ds))
        same parts in
    (fits, at_end.0, IsExact-of_walk ds base bytes meeting returned at_end.1 at_end.2, at_end.3)

coverage_of_exact :
    (ds : List Descriptor) (base bytes expected : ℕ)
    → base + bytes < 2 ^ 64
    → All (IsFair base (base + bytes) expected) ds
    → IsExact ds base bytes
    → coverage page_size ds base bytes expected ≡ ok (meeting_count base (base + bytes) ds)
unfolding coverage
coverage_of_exact ds base bytes expected fits fair x =
    let end = base + bytes in
    let shared = shared_of_exact ds base bytes x in
    let t =
      tally_complete base end (share page_size base end expected) (IsFair base end expected)
        (share_complete base end expected) ds 0 0 fair (omega arith) in
    let (returned, w, _) =
      walk-ends (0 + meeting_count base end ds) end ds base (omega arith)
        (covered_of_exact ds base bytes x) (omega arith) in
    ground (arith, t, w, shared)

-- `coverage` accepts a range exactly when it ends below 2 ^ 64, every descriptor of the map is free of
-- overflow and aligned, those that meet the range have the expected type, and every byte of the range
-- lies in exactly one descriptor. It answers the number of descriptors that meet the range.
pub coverage_iff :
    (ds : List Descriptor) (base bytes expected n : ℕ)
    → (coverage page_size ds base bytes expected ≡ ok n) ↔ (
        (base + bytes < 2 ^ 64)
        × All (IsFair base (base + bytes) expected) ds
        × IsExact ds base bytes
        × (n ≡ meeting_count base (base + bytes) ds))
coverage_iff ds base bytes expected n = (
  coverage_ok ds base bytes expected n,
  λ h. coverage_of_exact ds base bytes expected h.0 h.1 h.2 ∙ ap ok (sym h.3),
)

pub validate_entries_ok :
    (ds : List Descriptor) (base bytes expected : ℕ)
    → validate_entries ds base bytes expected ≡ ok tt
    → (base + bytes < 2 ^ 64)
      × All (IsFairArm base (base + bytes) expected) ds
      × IsExact ds base bytes
unfolding validate_entries
validate_entries_ok ds base bytes expected e =
    let (end, c, r) = >>=-eq-ok (ok_or (checked_add base bytes) compromised_data) _ e in
    let (fits, same) = end_of_range base bytes end c in
    let ((total, meeting), t, r') = >>=-eq-ok (tally (share_arm base end expected) ds 0 0) _ r in
    let (_, full, f) = >>=-eq-ok (refuse (not (total == bytes)) compromised_data) _ r' in
    let w = finish_arm_ok 4096 end ds base f in
    let (fair, sum, met) =
      tally_sound base end (share_arm base end expected) (IsFairArm base end expected)
        (share_arm_sound base end expected) ds 0 0 total meeting t in
    let parts : All (IsFairArm base end expected) ds
        × (shared_bytes base end ds ≡ bytes)
        × (walk page_size 4096 end ds base ≡ some (end, true)) =
      (fair, ground arith, w) in
    let at_end =
      subst
        (λ x.
          All (IsFairArm base x expected) ds
          × (shared_bytes base x ds ≡ bytes)
          × (walk page_size 4096 x ds base ≡ some (x, true)))
        same parts in
    (fits, at_end.0, IsExact-of_walk ds base bytes 4096 true at_end.1 at_end.2)

validate_entries_of_exact :
    (ds : List Descriptor) (base bytes expected : ℕ)
    → base + bytes < 2 ^ 64
    → All (IsFairArm base (base + bytes) expected) ds
    → IsExact ds base bytes
    → meeting_count base (base + bytes) ds < 4096
    → validate_entries ds base bytes expected ≡ ok tt
unfolding validate_entries
validate_entries_of_exact ds base bytes expected fits fair x few =
    let end = base + bytes in
    let shared = shared_of_exact ds base bytes x in
    let t =
      tally_complete base end (share_arm base end expected) (IsFairArm base end expected)
        (share_arm_complete base end expected) ds 0 0 fair (omega arith) in
    let (returned, w, inside) =
      walk-ends 4096 end ds base (omega arith) (covered_of_exact ds base bytes x) (omega arith) in
    ground (arith, t, w, shared, inside few)

-- Where fewer than 4096 descriptors meet the range, `validate_map` accepts the entries exactly when the
-- range ends below 2 ^ 64, no descriptor overflows, those that meet the range are aligned and of the
-- owner's type, and every byte of the range lies in exactly one descriptor.
pub validate_entries_iff :
    (ds : List Descriptor) (base bytes expected : ℕ)
    → meeting_count base (base + bytes) ds < 4096
    → (validate_entries ds base bytes expected ≡ ok tt) ↔ (
        (base + bytes < 2 ^ 64)
        × All (IsFairArm base (base + bytes) expected) ds
        × IsExact ds base bytes)
validate_entries_iff ds base bytes expected few = (
  validate_entries_ok ds base bytes expected,
  λ h. validate_entries_of_exact ds base bytes expected h.0 h.1 h.2 few,
)
