-- ===== src/Stl/Framebuffer/Text/Tests.antt =====
-- A character at scale 2 on a buffer of 40 by 40 pixels.
use electric_os.Base.{ℕ, ◌+◌, ◌*◌, ◌≡◌, refl, arith, if◌then◌else◌}
use electric_os.Base.Int.{pos, ◌+ℤ◌}
use electric_os.Stl.Point.{point}
use electric_os.Stl.Framebuffer.{Framebuffer, gray, is_outside, get_pixel}
use electric_os.Stl.Framebuffer.Text.{put_char, shade}
use electric_os.Stl.Framebuffer.Text.Glyph.{glyph_row, put_char-pixel}

abbrev paper : Framebuffer
paper = record { base = λ i. gray 0; width = 40; height = 40; pixels_per_scanline = 41 }

abbrev stripes : ℕ → ℕ
stripes i = i

put_char-pixel_example :
    get_pixel
      (put_char stripes 16 paper 65 (point (pos 3) (pos 4)) 2 (gray 255) (gray 0))
      (point (pos 3 +ℤ pos 5) (pos 4 +ℤ pos 31))
    ≡ (if is_outside paper (point (pos 3 +ℤ pos 5) (pos 4 +ℤ pos 31))
        then gray 0
        else shade stripes (65 * 16 + glyph_row 31 2) 5 2 (gray 255) (gray 0))
put_char-pixel_example =
    put_char-pixel stripes (point (pos 3) (pos 4)) 2 (gray 255) (gray 0) 5 31 16 paper 65
      (omega arith) (omega arith) (omega arith) (omega arith)

-- The last row at scale 2 is row 16 of the glyph, which has 16 rows from 0 on.
last_row : glyph_row 31 2 ≡ 16
last_row = refl
