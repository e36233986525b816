-- ===== src/Driver/Media/Laws.antt =====
-- The partition of src/apfs_driver.rs that is taken, and its geometry.
use nextcore_efi.Common.{
  ==_iff, All, Bool, Bool-cases, List, Option, Result, [], any, ap, arith, checked_mul, err, false,
  inl, inr, length, ltb, ltb→le, none, not, ok, ok_or, refl, refuse, some, subst, sym, true, ℕ, ◌*◌,
  ◌++◌, ◌+◌, ◌<◌, ◌==◌, ◌>>=◌, ◌^◌, ◌||◌, ◌↔◌, ◌∙◌, ◌∷◌, ◌≡◌, ◌≤◌, ◌⊎◌,
}
use nextcore_efi.Status.{Status, no_media, unsupported, bad_buffer_size}
use nextcore_efi.Driver.Media.{
  Partition, max_partition_handles, take_partition, find_container, candidate, Media, Geometry,
  is_power_of_two, powers, media_length, media_geometry,
}

-- The containers among partitions that all answer.
abbrev pub IsOther : Partition → Type 0
IsOther p = p.is_container ≡ ok false

-- Exactly one partition is a container, and it has this handle.
pub record IsOnly (handle : ℕ) (ps : List Partition) : Type 0 where
  pub before : List Partition
  pub container : Partition
  pub after : List Partition
  pub split : ps ≡ before ++ (container ∷ after)
  pub is_handle : container.handle ≡ handle
  pub is_container : container.is_container ≡ ok true
  pub others_before : All IsOther before
  pub others_after : All IsOther after

step_second :
    (at handle out : ℕ) (b : Result Status Bool) (ps : List Partition)
    → (take_partition at (some handle) b >>= λ now. find_container ps now) ≡ ok (some out)
    → (b ≡ ok false) × (find_container ps (some handle) ≡ ok (some out))
step_second at handle out (err e) ps h = cc
step_second at handle out (ok false) ps h = (refl, h)
step_second at handle out (ok true) ps h = cc

-- Behind a container that was found, all others have to be other partitions.
find_second :
    (ps : List Partition) (handle out : ℕ)
    → find_container ps (some handle) ≡ ok (some out)
    → All IsOther ps × (handle ≡ out)
unfolding find_container
find_second [] handle out h = (tt, ground arith)
find_second (p ∷ ps) handle out h =
    let (other, rest) = step_second p.handle handle out p.is_container ps h in
    let (others, same) = find_second ps handle out rest in ((other, others), same)

find_second_other :
    (ps : List Partition) (handle : ℕ)
    → All IsOther ps
    → find_container ps (some handle) ≡ ok (some handle)
unfolding find_container
find_second_other [] handle h = refl
find_second_other (p ∷ ps) handle h = rw h.0 (find_second_other ps handle h.1)

step_first :
    (at handle : ℕ) (b : Result Status Bool) (ps : List Partition)
    → (take_partition at none b >>= λ now. find_container ps now) ≡ ok (some handle)
    → ((b ≡ ok false) × (find_container ps none ≡ ok (some handle)))
      ⊎ ((b ≡ ok true) × (find_container ps (some at) ≡ ok (some handle)))
step_first at handle (err e) ps h = cc
step_first at handle (ok false) ps h = inl (refl, h)
step_first at handle (ok true) ps h = inr (refl, h)

find-IsOnly :
    (ps : List Partition) (handle : ℕ)
    → find_container ps none ≡ ok (some handle)
    → IsOnly handle ps
unfolding find_container
find-IsOnly [] handle h = cc
find-IsOnly (p ∷ ps) handle h = elim (step_first p.handle handle p.is_container ps h) [
  | inl (other, rest) ↦
      let only = find-IsOnly ps handle rest in
      record {
        before = p ∷ only.before;
        container = only.container;
        after = only.after;
        split = ap (λ qs. p ∷ qs) only.split;
        is_handle = only.is_handle;
        is_container = only.is_container;
        others_before = (other, only.others_before);
        others_after = only.others_after;
      }
  | inr (this, rest) ↦
      let (others, same) = find_second ps p.handle handle rest in
      record {
        before = [];
        container = p;
        after = ps;
        split = refl;
        is_handle = same;
        is_container = this;
        others_before = tt;
        others_after = others;
      }
]

only_find :
    (before after : List Partition) (c : Partition)
    → c.is_container ≡ ok true
    → All IsOther before
    → All IsOther after
    → find_container (before ++ (c ∷ after)) none ≡ ok (some c.handle)
unfolding find_container
only_find [] after c e h k = rw e (find_second_other after c.handle k)
only_find (p ∷ before) after c e h k = rw h.0 (only_find before after c e h.1 k)

only_find_of :
    (ps : List Partition) (handle : ℕ)
    → IsOnly handle ps
    → find_container ps none ≡ ok (some handle)
only_find_of ps handle only =
    ap (λ qs. find_container qs none) only.split
    ∙ only_find only.before only.after only.container only.is_container only.others_before
        only.others_after
    ∙ ap (λ n. ok (some n)) only.is_handle

found_ok :
    (r : Result Status (Option ℕ)) (handle : ℕ)
    → (r >>= λ found. ok_or found Status.not_found) ≡ ok handle
    → r ≡ ok (some handle)
found_ok (err e) handle h = cc
found_ok (ok none) handle h = cc
found_ok (ok (some n)) handle h = cc

-- `candidate` answers a handle exactly if at most 256 partitions are listed, all of them answer, and one
-- and only one is an APFS container, which has that handle.
pub candidate_iff :
    (ps : List Partition) (handle : ℕ)
    → (candidate (ok ps) ≡ ok handle) ↔ ((length ps ≤ max_partition_handles) × IsOnly handle ps)
unfolding candidate
candidate_iff ps handle = (
  λ h. elim (Bool-cases (ltb max_partition_handles (length ps))) [
    | inl many ↦ absurd (ground arith)
    | inr few ↦
        let found : (find_container ps none >>= λ o. ok_or o Status.not_found) ≡ ok handle =
          ground arith in
        (
          ltb→le max_partition_handles (length ps) few,
          find-IsOnly ps handle (found_ok (find_container ps none) handle found),
        )
  ],
  λ (few, only).
      let b : ltb max_partition_handles (length ps) ≡ false = ground arith in
      rw (b, only_find_of ps handle only) refl,
)

any_power : (n : ℕ) (ks : List ℕ) → any (λ k. n == 2 ^ k) ks ≡ true → (k : ℕ) × (n ≡ 2 ^ k)
any_power n [] h = cc
any_power n (k ∷ ks) h = elim (Bool-cases (n == 2 ^ k)) [
  | inl same ↦ (k, (==_iff n (2 ^ k)).0 same)
  | inr other ↦ any_power n ks (ground arith)
]

geometry_steps :
    (present logical bad : Bool) (len : Option ℕ) (id size : ℕ) (g : Geometry)
    → (refuse (not present) no_media >>= λ _. refuse (not logical) unsupported >>= λ _.
        refuse bad unsupported >>= λ _. ok_or len bad_buffer_size >>= λ n.
        ok (record { media_id = id; block_size = size; bytes = n }))
      ≡ ok g
    → (present ≡ true)
      × (logical ≡ true)
      × (bad ≡ false)
      × (len ≡ some g.bytes)
      × (size ≡ g.block_size)
geometry_steps false logical bad len id size g h = cc
geometry_steps true false bad len id size g h = cc
geometry_steps true true true len id size g h = cc
geometry_steps true true false none id size g h = cc
geometry_steps true true false (some n) id size g h =
    let same : (record { media_id = id; block_size = size; bytes = n }) ≡ g = cc in
    (refl, refl, refl, ap (λ k. some k.bytes) same, ap (λ k. k.block_size) same)

all_fit : (a b c : Bool) → (a || b || not c) ≡ false → (a ≡ false) × (b ≡ false) × (c ≡ true)
all_fit true b c h = cc
all_fit false true c h = cc
all_fit false false true h = (refl, refl, refl)
all_fit false false false h = cc

product_exact : (a b n : ℕ) → checked_mul a b ≡ some n → (n ≡ a * b) × (n < 2 ^ 64)
product_exact a b n h = ground arith

media_length_exact :
    (media : Media) (n : ℕ)
    → media_length media ≡ some n
    → (n ≡ (media.last_block + 1) * media.block_size) × (n < 2 ^ 64)
media_length_exact media n h = elim (Bool-cases (ltb (media.last_block + 1) (2 ^ 64))) [
  | inl fits ↦ product_exact (media.last_block + 1) media.block_size n (ground arith)
  | inr over ↦ absurd (ground arith)
]

-- A geometry is that of present media of a partition: blocks of 512 bytes to 64 KiB, a power of two, and
-- a length of whole blocks, the last one included, that is a u64.
pub media_geometry_ok :
    (media : Media) (g : Geometry)
    → media_geometry media ≡ ok g
    → (media.is_media_present ≡ true)
      × (media.is_logical_partition ≡ true)
      × (512 ≤ g.block_size)
      × (g.block_size ≤ 65536)
      × ((k : ℕ) × (g.block_size ≡ 2 ^ k))
      × (g.bytes ≡ (media.last_block + 1) * g.block_size)
      × (g.bytes < 2 ^ 64)
unfolding media_geometry
media_geometry_ok media g h =
    let bad =
      ltb media.block_size 512
      || ltb 65536 media.block_size
      || not (is_power_of_two media.block_size) in
    let (present, logical, fits, len, size) =
      geometry_steps media.is_media_present media.is_logical_partition bad (media_length media)
        media.media_id media.block_size g h in
    let (low, high, power) =
      all_fit (ltb media.block_size 512) (ltb 65536 media.block_size)
        (is_power_of_two media.block_size) fits in
    let (k, e) = any_power media.block_size powers power in
    let (exact, bound) = media_length_exact media g.bytes len in
    (
      present,
      logical,
      subst (λ n. 512 ≤ n) size (ltb→le media.block_size 512 low),
      subst (λ n. n ≤ 65536) size (ltb→le 65536 media.block_size high),
      (k, sym size ∙ e),
      exact ∙ ap (λ n. (media.last_block + 1) * n) size,
      bound,
    )
