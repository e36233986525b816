-- ===== src/Framebuffer.antt =====
-- src/boot_framebuffer.rs: presentation of a guest framebuffer by the Graphics Output Protocol (GOP).
pub mod Laws
mod Runs
use nextcore_efi.Common.{
  Bool, List, Option, Result, [], checked_mul, err, if◌then◌else◌, length, ltb, none, not, ok,
  ok_or, refuse, some, ℕ, ◌&&◌, ◌*◌, ◌/◌, ◌==◌, ◌>>=◌, ◌>>◌, ◌^◌, ◌||◌, ◌∷◌,
}
use nextcore_efi.Status.{Status, unsupported, bad_buffer_size, media_changed, out_of_resources}

abbrev pub max_dimension : ℕ
max_dimension = 8192

pub record Geometry : Type 0 where
  pub width : ℕ
  pub height : ℕ
  pub row_bytes : ℕ
  pub byte_len : ℕ

-- `u32::checked_mul`
abbrev pub checked_mul32 : ℕ → ℕ → Option ℕ
checked_mul32 a b = if ltb (a * b) (2 ^ 32) then some (a * b) else none

-- `Geometry::new`
unfoldable pub geometry : ℕ → ℕ → Result Status Geometry
geometry width height = do
  refuse (width == 0 || height == 0 || ltb max_dimension width || ltb max_dimension height)
      unsupported
  row_bytes ← ok_or (checked_mul32 width 4) bad_buffer_size
  byte_len ← ok_or (checked_mul row_bytes height) bad_buffer_size
  ok (record { width = width; height = height; row_bytes = row_bytes; byte_len = byte_len })

pub record BltPixel : Type 0 where
  pub blue : ℕ
  pub green : ℕ
  pub red : ℕ

-- The pixels of the groups of four bytes; `chunks_exact` leaves out a shorter rest.
abbrev pub pixels_of : List ℕ → List BltPixel
pixels_of (b0 ∷ b1 ∷ b2 ∷ b3 ∷ bs) = record { blue = b0; green = b1; red = b2 } ∷ pixels_of bs
pixels_of bs = []

-- `reserve` is whether `try_reserve_exact` succeeds for a number of elements.
unfoldable pub blt_pixels : (ℕ → Bool) → Geometry → List ℕ → Result Status (List BltPixel)
blt_pixels reserve g bytes = do
  refuse (not (length bytes == g.byte_len)) bad_buffer_size
  refuse (not (reserve (length bytes / 4))) out_of_resources
  ok (pixels_of bytes)

-- The bytes that `readback` makes of the pixels.
abbrev pub bytes_of : List BltPixel → List ℕ
bytes_of [] = []
bytes_of (p ∷ ps) = p.blue ∷ p.green ∷ p.red ∷ 0 ∷ bytes_of ps

-- A GOP: its current resolution, what it shows, its answers to BufferToVideo and VideoToBltBuffer, and
-- what it shows behind a BufferToVideo that failed.
pub record Gop : Type 0 where
  pub width : ℕ
  pub height : ℕ
  pub screen : List BltPixel
  pub torn : List BltPixel
  pub show : Result Status (Unit {0})
  pub fetch : Result Status (Unit {0})

-- `CurrentGop::check_current_geometry`
unfoldable pub check_current_geometry : Gop → Geometry → Result Status (Unit {0})
check_current_geometry gop g =
    refuse (not (gop.width == g.width && gop.height == g.height)) media_changed

abbrev pub shown : Gop → List BltPixel → Result Status (Unit {0}) → Result Status (Unit {0}) × Gop
shown gop pixels (err e) = (err e, record gop { screen = gop.torn })
shown gop pixels (ok _) = (ok tt, record gop { screen = pixels })

abbrev pub show_pixels : Gop → Result Status (List BltPixel) → Result Status (Unit {0}) × Gop
show_pixels gop (err e) = (err e, gop)
show_pixels gop (ok pixels) = shown gop pixels gop.show

-- `CurrentGop::present`, with the GOP that it leaves.
unfoldable pub present : (ℕ → Bool) → Gop → Geometry → List ℕ → Result Status (Unit {0}) × Gop
present reserve gop g bytes =
    show_pixels gop (check_current_geometry gop g >>= λ _. blt_pixels reserve g bytes)

-- `CurrentGop::readback`, where the firmware fills the pixels with the screen.
unfoldable pub readback : (ℕ → Bool) → Gop → Geometry → Result Status (List ℕ)
readback reserve gop g = do
  check_current_geometry gop g
  refuse (not (reserve (g.byte_len / 4))) out_of_resources
  refuse (not (reserve g.byte_len)) out_of_resources
  gop.fetch
  ok (bytes_of gop.screen)
