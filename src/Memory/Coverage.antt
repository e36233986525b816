-- ===== src/Memory/Coverage.antt =====
-- `MapBuffer::coverage` of src/loaded_kernel_collection.rs and `ArmPages::validate_map` of
-- src/arm_pages.rs: whether a memory map gives a range to one owner. `page` stands for
-- `STAGING_PAGE_SIZE` of the core library; the second function writes 4096.
pub mod Counting
pub mod Tally
pub mod Walk
pub mod Ends
pub mod Exact
mod Runs
use nextcore_efi.Common.{
  Bool, List, Option, Result, [], checked_add, checked_mul, err, false, if◌then◌else◌, leb, ltb,
  max, min, none, not, ok, ok_or, refuse, some, suc, true, zero, ℕ, ◌%◌, ◌&&◌, ◌*◌, ◌+◌, ◌-◌, ◌==◌,
  ◌>>=◌, ◌>>◌, ◌||◌, ◌∷◌,
}
use nextcore_efi.Status.{Status, compromised_data}
use nextcore_efi.Memory.Descriptor.{Descriptor, page_size}

-- The body of the first loop: the bytes that a descriptor gives to the range, if any.
unfoldable pub share : ℕ → ℕ → ℕ → ℕ → Descriptor → Result Status (Option ℕ)
share page base end expected d = do
  len ← ok_or (checked_mul d.page_count page) compromised_data
  limit ← ok_or (checked_add d.phys_start len) compromised_data
  refuse (not (d.phys_start % page == 0)) compromised_data
  let lo = max base d.phys_start
  let hi = min end limit
  refuse (ltb lo hi && not (d.ty == expected)) compromised_data
  ok (if ltb lo hi then some (hi - lo) else none)

-- The same in `ArmPages::validate_map`, which asks only descriptors that meet the range to be aligned.
unfoldable pub share_arm : ℕ → ℕ → ℕ → Descriptor → Result Status (Option ℕ)
share_arm base end expected d = do
  len ← ok_or (checked_mul d.page_count page_size) compromised_data
  limit ← ok_or (checked_add d.phys_start len) compromised_data
  let lo = max base d.phys_start
  let hi = min end limit
  refuse (ltb lo hi && (not (d.ty == expected) || not (d.phys_start % page_size == 0)))
      compromised_data
  ok (if ltb lo hi then some (hi - lo) else none)

-- `total.checked_add(hi - lo)` and `intersecting += 1`.
unfoldable pub add_share : Option ℕ → ℕ → ℕ → Result Status (ℕ × ℕ)
add_share none total meeting = ok (total, meeting)
add_share (some n) total meeting = do
  sum ← ok_or (checked_add total n) compromised_data
  ok (sum, meeting + 1)

-- The first loop: the bytes given to the range, and how many descriptors meet it.
unfoldable pub tally :
    (Descriptor → Result Status (Option ℕ)) → List Descriptor → ℕ → ℕ → Result Status (ℕ × ℕ)
tally f [] total meeting = ok (total, meeting)
tally f (d ∷ ds) total meeting = do
  part ← f d
  (sum, count) ← add_share part total meeting
  tally f ds sum count

-- The inner loop: how far the descriptors that cover `cursor` reach, up to `end`.
unfoldable pub reach : ℕ → ℕ → ℕ → List Descriptor → ℕ → ℕ
reach page end cursor [] next = next
reach page end cursor (d ∷ ds) next =
    let limit = d.phys_start + d.page_count * page in
    reach page end cursor ds
      (if leb d.phys_start cursor && ltb cursor limit then max next (min limit end) else next)

-- The second loop: it stops with `none` at a gap, and otherwise gives the last cursor. `true` says
-- that it returned from inside the loop.
unfoldable pub walk : ℕ → ℕ → ℕ → List Descriptor → ℕ → Option (ℕ × Bool)
walk page zero end ds cursor = some (cursor, false)
walk page (suc rounds) end ds cursor =
    let next = reach page end cursor ds cursor in
    let rest = walk page rounds end ds next in
    if cursor == end then some (cursor, true) else if next == cursor then none else rest

-- What `coverage` answers behind its second loop.
abbrev pub finish : ℕ → ℕ → Option (ℕ × Bool) → Result Status ℕ
finish end meeting none = err compromised_data
finish end meeting (some (cursor, returned)) =
    if cursor == end then ok meeting else err compromised_data

-- `MapBuffer::coverage`: the number of descriptors that make up the range.
unfoldable pub coverage : ℕ → List Descriptor → ℕ → ℕ → ℕ → Result Status ℕ
coverage page ds base bytes expected = do
  end ← ok_or (checked_add base bytes) compromised_data
  (total, meeting) ← tally (share page base end expected) ds 0 0
  refuse (not (total == bytes)) compromised_data
  finish end meeting (walk page meeting end ds base)

-- `ArmPages::validate_map` returns from inside its 4096 rounds or fails.
abbrev pub finish_arm : Option (ℕ × Bool) → Result Status (Unit {0})
finish_arm (some (cursor, true)) = ok tt
finish_arm _ = err compromised_data

-- `ArmPages::validate_map` behind its tests of the map's metadata.
unfoldable pub validate_entries : List Descriptor → ℕ → ℕ → ℕ → Result Status (Unit {0})
validate_entries ds base bytes expected = do
  end ← ok_or (checked_add base bytes) compromised_data
  (total, meeting) ← tally (share_arm base end expected) ds 0 0
  refuse (not (total == bytes)) compromised_data
  finish_arm (walk page_size 4096 end ds base)
