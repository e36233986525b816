-- ===== src/Framebuffer/Laws.antt =====
-- src/boot_framebuffer.rs: geometries, and frames presented and read back.
use nextcore_efi.Common.{
  >>=-eq-ok, Bool, List, Result, Result-cases, [], ap, arith, err, false, inl, inr, length, ltb,
  lt→ltb, not, ok, refl, refuse, subst, sym, true, ℕ, ◌&&◌, ◌*◌, ◌/◌, ◌<◌, ◌==◌, ◌>>=◌, ◌^◌, ◌||◌,
  ◌↔◌, ◌∙◌, ◌∷◌, ◌≡◌, ◌≤◌,
}
use nextcore_efi.Status.{Status, unsupported, media_changed, bad_buffer_size, out_of_resources}
use nextcore_efi.Framebuffer.{
  shown, show_pixels, Geometry, geometry, max_dimension, BltPixel, pixels_of, blt_pixels, bytes_of,
  Gop, check_current_geometry, present, readback,
}

frame-le : (w h : ℕ) → w ≤ 8192 → h ≤ 8192 → w * 4 * h < 2 ^ 64
frame-le w h wb hb = grind arith

-- The contiguous geometry of some dimensions.
abbrev pub shape : ℕ → ℕ → Geometry
shape width height = record {
  width = width;
  height = height;
  row_bytes = width * 4;
  byte_len = width * 4 * height;
}

geometry-ok :
    (width height : ℕ)
    → 0 < width
    → width ≤ 8192
    → 0 < height
    → height ≤ 8192
    → geometry width height ≡ ok (shape width height)
unfolding geometry
geometry-ok width height w0 wb h0 hb =
    let fits : ltb (width * 4 * height) (2 ^ 64) ≡ true =
      lt→ltb (width * 4 * height) (2 ^ 64) (frame-le width height wb hb) in
    let row : ltb (width * 4) (2 ^ 32) ≡ true = ground arith in
    let good : (width == 0 || height == 0 || ltb max_dimension width || ltb max_dimension height)
        ≡ false =
      ground arith in
    rw (good, row, fits) refl

geometry-bounds :
    (width height : ℕ) (g : Geometry)
    → geometry width height ≡ ok g
    → (0 < width) × (width ≤ 8192) × (0 < height) × (height ≤ 8192)
unfolding geometry
geometry-bounds width height g h =
    let (_, r, _) =
      >>=-eq-ok
        (refuse (width == 0 || height == 0 || ltb max_dimension width || ltb max_dimension height)
          unsupported)
        _ h in
    ground arith

geometry-same :
    (width height : ℕ) (g : Geometry)
    → 0 < width
    → width ≤ 8192
    → 0 < height
    → height ≤ 8192
    → geometry width height ≡ ok g
    → g ≡ shape width height
geometry-same width height g w0 wb h0 hb h = let made = geometry-ok width height w0 wb h0 hb in cc

-- A geometry is made exactly of dimensions from 1 to 8192, and is contiguous rows of 4 bytes a pixel:
-- neither product overflows.
pub geometry_iff :
    (width height : ℕ) (g : Geometry)
    → (geometry width height ≡ ok g)
      ↔ ((0 < width) × (width ≤ 8192) × (0 < height) × (height ≤ 8192) × (g ≡ shape width height))
geometry_iff width height g = (
  λ h.
      let (w0, wb, h0, hb) = geometry-bounds width height g h in
      (w0, wb, h0, hb, geometry-same width height g w0 wb h0 hb h),
  λ (w0, wb, h0, hb, e). geometry-ok width height w0 wb h0 hb ∙ ap ok (sym e),
)

-- The bytes of a frame with every fourth, unused byte zeroed.
abbrev pub normalized : List ℕ → List ℕ
normalized (b0 ∷ b1 ∷ b2 ∷ b3 ∷ bs) = b0 ∷ b1 ∷ b2 ∷ 0 ∷ normalized bs
normalized bs = []

bytes_of-pixels_of : (bs : List ℕ) → bytes_of (pixels_of bs) ≡ normalized bs
bytes_of-pixels_of [] = refl
bytes_of-pixels_of (b0 ∷ []) = refl
bytes_of-pixels_of (b0 ∷ b1 ∷ []) = refl
bytes_of-pixels_of (b0 ∷ b1 ∷ b2 ∷ []) = refl
bytes_of-pixels_of (b0 ∷ b1 ∷ b2 ∷ b3 ∷ bs) = ap (λ r. b0 ∷ b1 ∷ b2 ∷ 0 ∷ r) (bytes_of-pixels_of bs)

shown-ok :
    (gop : Gop) (pixels : List BltPixel) (r : Result Status (Unit {0}))
    → (shown gop pixels r).0 ≡ ok tt
    → shown gop pixels r ≡ (ok tt, record gop { screen = pixels })
shown-ok gop pixels (ok u) h = refl
shown-ok gop pixels (err e) h = absurd (cc)

show_pixels-err :
    (gop : Gop) (r : Result Status (List BltPixel)) (e : Status)
    → gop.show ≡ ok tt
    → (show_pixels gop r).0 ≡ err e
    → (show_pixels gop r).1 ≡ gop
show_pixels-err gop (err e') e w h = refl
show_pixels-err gop (ok pixels) e w h =
    absurd (subst (λ t. (shown gop pixels t).0 ≡ err e → ⊥) (sym w) (λ k. cc) h)

refuse-ok : (b : Bool) (e : Status) {u : Unit {0}} → refuse (not b) e ≡ ok u → b ≡ true
refuse-ok true e h = refl
refuse-ok false e h = absurd (cc)

-- What a frame passed when it is shown.
checked :
    (reserve : ℕ → Bool) (gop : Gop) (g : Geometry) (bytes : List ℕ) (pixels : List BltPixel)
    → (check_current_geometry gop g >>= λ _. blt_pixels reserve g bytes) ≡ ok pixels
    → ((gop.width == g.width && gop.height == g.height) ≡ true)
      × (length bytes ≡ g.byte_len)
      × (reserve (g.byte_len / 4) ≡ true)
      × (pixels ≡ pixels_of bytes)
unfolding check_current_geometry blt_pixels
checked reserve gop g bytes pixels h =
    let (_, r1, h1) =
      >>=-eq-ok (refuse (not (gop.width == g.width && gop.height == g.height)) media_changed)
        (λ _. blt_pixels reserve g bytes) h in
    let (_, r2, h2) =
      >>=-eq-ok (refuse (not (length bytes == g.byte_len)) bad_buffer_size)
        (λ _.
          refuse (not (reserve (length bytes / 4))) out_of_resources >>= λ _. ok (pixels_of bytes))
        h1 in
    let (_, r3, h3) =
      >>=-eq-ok (refuse (not (reserve (length bytes / 4))) out_of_resources)
        (λ _. ok (pixels_of bytes)) h2 in
    let size : length bytes ≡ g.byte_len = ground arith in
    (
      refuse-ok _ media_changed r1,
      size,
      subst (λ n. reserve (n / 4) ≡ true) size (refuse-ok _ out_of_resources r3),
      cc,
    )

readback-shown :
    (reserve : ℕ → Bool) (gop : Gop) (g : Geometry)
    → (gop.width == g.width && gop.height == g.height) ≡ true
    → reserve (g.byte_len / 4) ≡ true
    → reserve g.byte_len ≡ true
    → gop.fetch ≡ ok tt
    → readback reserve gop g ≡ ok (bytes_of gop.screen)
unfolding readback check_current_geometry
readback-shown reserve gop g same room whole fetched = rw (same, room, whole, fetched) refl

-- If `present` succeeds, the frame had the geometry's length and the GOP its resolution, and a readback
-- for which the memory suffices and whose transfer the firmware performs yields the frame with every
-- fourth, unused byte zeroed; if it fails though the firmware would perform the presentation, the screen is as
-- before.
pub readback-present :
    (reserve : ℕ → Bool) (gop : Gop) (g : Geometry) (bytes : List ℕ)
    → ((present reserve gop g bytes).0 ≡ ok tt
        → (length bytes ≡ g.byte_len)
          × (gop.width ≡ g.width)
          × (gop.height ≡ g.height)
          × (reserve g.byte_len ≡ true
              → gop.fetch ≡ ok tt
              → readback reserve (present reserve gop g bytes).1 g ≡ ok (normalized bytes)))
      × ((e : Status)
          → (present reserve gop g bytes).0 ≡ err e
          → gop.show ≡ ok tt
          → (present reserve gop g bytes).1 ≡ gop)
unfolding present
readback-present reserve gop g bytes = (
  λ h. elim (Result-cases (check_current_geometry gop g >>= λ _. blt_pixels reserve g bytes)) [
    | inr (e, refused) ↦
        absurd (subst (λ r. (show_pixels gop r).0 ≡ ok tt → ⊥) (sym refused) (λ k. cc) h)
    | inl (pixels, passed) ↦
        let (same, size, room, made) = checked reserve gop g bytes pixels passed in
        let h' : (shown gop pixels gop.show).0 ≡ ok tt =
          subst (λ r. (show_pixels gop r).0 ≡ ok tt) passed h in
        let now : present reserve gop g bytes ≡ (ok tt, record gop { screen = pixels }) =
          ap (show_pixels gop) passed ∙ shown-ok gop pixels gop.show h' in
        (
          size,
          ground arith,
          ground arith,
          λ whole fetched.
              ap (λ r. readback reserve r.1 g) now
              ∙ readback-shown reserve (record gop { screen = pixels }) g same room whole fetched
              ∙ ap (λ p. ok (bytes_of p)) made
              ∙ ap ok (bytes_of-pixels_of bytes),
        )
  ],
  λ e h performs.
      show_pixels-err gop (check_current_geometry gop g >>= λ _. blt_pixels reserve g bytes) e
        performs h,
)
