-- ===== src/Framebuffer/Runs.antt =====
-- A screen of two pixels.
use nextcore_efi.Common.{Bool, List, [], err, length, ok, refl, true, ℕ, ◌∷◌, ◌≡◌}
use nextcore_efi.Status.{Status}
use nextcore_efi.Framebuffer.{BltPixel, blt_pixels, Gop, check_current_geometry, present, readback}
use nextcore_efi.Framebuffer.Laws.{shape, normalized, readback-present}

abbrev black : BltPixel
black = record { blue = 0; green = 0; red = 0 }

abbrev gop : Gop
gop = record {
  width = 2;
  height = 1;
  screen = black ∷ black ∷ [];
  torn = [];
  show = ok tt;
  fetch = ok tt;
}

abbrev frame : List ℕ
frame = 0x12 ∷ 0x34 ∷ 0x56 ∷ 0xff ∷ 0x9a ∷ 0xbc ∷ 0xde ∷ 0x7f ∷ []

present_run : (present (λ n. true) gop (shape 2 1) frame).0 ≡ ok tt
unfolding present blt_pixels check_current_geometry
present_run = refl

readback-present_example :
    let reserve : ℕ → Bool = λ n. true in
    let g = shape 2 1 in
    ((present reserve gop g frame).0 ≡ ok tt
      → (length frame ≡ g.byte_len)
        × (gop.width ≡ g.width)
        × (gop.height ≡ g.height)
        × (reserve g.byte_len ≡ true
            → gop.fetch ≡ ok tt
            → readback reserve (present reserve gop g frame).1 g ≡ ok (normalized frame)))
    × ((e : Status)
        → (present reserve gop g frame).0 ≡ err e
        → gop.show ≡ ok tt
        → (present reserve gop g frame).1 ≡ gop)
readback-present_example = readback-present (λ n. true) gop (shape 2 1) frame
