-- ===== src/Memory/Collection/Release.antt =====
-- When a release succeeds, and what the readback-failure probe shows.
use Prim.Native.Nat.{bit_xor}
use nextcore_efi.Common.{
  All, Bool, IsByte, List, Result-cases, ap, arith, err, false, if◌then◌else◌, inl, inr, is_ok, not,
  ok, refl, some, suc, sym, true, zero, ℕ, ◌&&◌, ◌+◌, ◌<◌, ◌==◌, ◌>>=◌, ◌^◌, ◌↔◌, ◌∙◌, ◌∷◌, ◌≡◌,
  ◌≢◌,
}
use nextcore_efi.Common.{false}
use nextcore_efi.Status.{success, is_success, device_error, is_success→eq}
use nextcore_efi.Memory.Descriptor.{Descriptor, page_size, conventional}
use nextcore_efi.Memory.Coverage.{coverage}
use nextcore_efi.Memory.Coverage.Exact.{IsExact, coverage_iff}
use nextcore_efi.Memory.Coverage.Tally.{IsFair, meeting_count}
use nextcore_efi.Memory.Collection.Map.{IsReply, refresh_iff}
use nextcore_efi.Memory.Collection.{
  Firmware, Plan, Loaded, refresh, release_inner, release, probe_readback_failure, flip_first,
}

-- The pages went back: FreePages succeeded, and the map that the firmware reported afterwards gives
-- every byte of them to exactly one descriptor, of conventional memory.
pub record IsReturned (descriptor_size : ℕ) (later : Firmware) (base bytes : ℕ) : Type 0 where
  pub freed : later.free ≡ success
  pub map : List Descriptor
  pub reported : IsReply descriptor_size later.map_released map
  pub ends : base + bytes < 2 ^ 64
  pub fair : All (IsFair base (base + bytes) conventional) map
  pub exact : IsExact map base bytes

release_status :
    {V : Type 0} (descriptor_size : ℕ) (later : Firmware) (l : Loaded V) (base : ℕ)
    → l.pages.pointer ≡ some base
    → (release page_size descriptor_size later l).0 ≡ (
        if is_success later.free
          && is_ok (
              refresh descriptor_size later.map_released >>= λ ds.
              coverage page_size ds base l.pages.bytes conventional)
        then ok tt
        else err device_error)
unfolding release release_inner
release_status descriptor_size later l base e = rw (e, release_inner)

IsReturned-of_release :
    {V : Type 0} (descriptor_size : ℕ) (later : Firmware) (l : Loaded V) (base : ℕ)
    → l.pages.pointer ≡ some base
    → (release page_size descriptor_size later l).0 ≡ ok tt
    → IsReturned descriptor_size later base l.pages.bytes
IsReturned-of_release descriptor_size later l base e h =
    let status = release_status descriptor_size later l base e in
    elim (Result-cases (refresh descriptor_size later.map_released)) [
      | inr (s, r) ↦ absurd (ground arith)
      | inl (map, r) ↦
          elim (Result-cases (coverage page_size map base l.pages.bytes conventional)) [
            | inr (s, c) ↦ absurd (ground arith)
            | inl (n, c) ↦
                let (ends, fair, exact, _) =
                  (coverage_iff map base l.pages.bytes conventional n).0 c in
                record {
                  freed = is_success→eq later.free (ground arith);
                  map = map;
                  reported = (refresh_iff descriptor_size later.map_released map).0 r;
                  ends = ends;
                  fair = fair;
                  exact = exact;
                }
          ]
    ]

release-of_returned :
    {V : Type 0} (descriptor_size : ℕ) (later : Firmware) (l : Loaded V) (base : ℕ)
    → l.pages.pointer ≡ some base
    → IsReturned descriptor_size later base l.pages.bytes
    → (release page_size descriptor_size later l).0 ≡ ok tt
release-of_returned descriptor_size later l base e v =
    let bytes = l.pages.bytes in
    let covered =
      (coverage_iff v.map base bytes conventional (meeting_count base (base + bytes) v.map)).1
        (v.ends, v.fair, v.exact, refl) in
    release_status descriptor_size later l base e
    ∙ rw (v.freed, (refresh_iff descriptor_size later.map_released v.map).1 v.reported)
        (rw covered refl)

-- A release of live pages succeeds exactly when the pages went back.
pub release_iff :
    {V : Type 0} (descriptor_size : ℕ) (later : Firmware) (l : Loaded V) (base : ℕ)
    → l.pages.pointer ≡ some base
    → ((release page_size descriptor_size later l).0 ≡ ok tt)
      ↔ IsReturned descriptor_size later base l.pages.bytes
release_iff descriptor_size later l base e = (
  IsReturned-of_release descriptor_size later l base e,
  release-of_returned descriptor_size later l base e,
)

-- Whether a test holds of every number under a limit.
passes : (ℕ → Bool) → ℕ → Bool
passes test zero = true
passes test (suc last) = if test last then passes test last else false

passes_at : (test : ℕ → Bool) (v limit : ℕ) → v < limit → passes test limit ≡ true → test v ≡ true
unfolding passes
passes_at test v zero below h = absurd (omega arith)
passes_at test v (suc last) below h = ground (arith, passes_at test v last)

changes : ℕ → Bool
changes x = not (bit_xor x 0xff == x)

changes_bytes : passes changes 256 ≡ true
unfolding passes changes
changes_bytes = refl

flip-ne : (x : ℕ) → IsByte x → bit_xor x 0xff ≢ x
unfolding changes
flip-ne x h = ground (arith, passes_at changes x 256 h changes_bytes)

flip_first-ne : (b : ℕ) (bs : List ℕ) → IsByte b → flip_first (b ∷ bs) ≢ b ∷ bs
flip_first-ne b bs h e = flip-ne b h (cc)

-- If the plan's `verify` reports every memory that differs from the staged one, the probe of a loaded
-- collection of at least one byte succeeds.
pub probe_readback_failure_detects :
    {V : Type 0} (descriptor_size : ℕ) (later : Firmware) (plan : Plan V) (l : Loaded V) (b : ℕ)
    (bs : List ℕ)
    → ((m : List ℕ) → m ≢ l.memory → plan.mismatch m ≡ true)
    → l.memory ≡ b ∷ bs
    → IsByte b
    → (probe_readback_failure page_size descriptor_size later plan l).0 ≡ ok tt
unfolding probe_readback_failure
probe_readback_failure_detects descriptor_size later plan l b bs reports e h =
    let changed : flip_first l.memory ≢ l.memory =
      λ s. flip_first-ne b bs h (ap flip_first (sym e) ∙ s ∙ e) in
    rw (reports (flip_first l.memory) changed) refl
