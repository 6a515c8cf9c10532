-- ===== src/Stl/Framebuffer/Tests.antt =====
-- Drawing on the buffer of a process of 20 by 10 pixels.
use electric_os.Base.{◌≡◌, refl, arith, not, ◌&&◌, ltb, leb, if◌then◌else◌}
use electric_os.Base.Int.{pos}
use electric_os.Stl.Point.{point}
use electric_os.Stl.Framebuffer.{
  Framebuffer, gray, is_outside, get_pixel, put_pixel, draw_rect, fill,
}
use electric_os.Stl.Framebuffer.Rect.{get_pixel-draw_rect}
use electric_os.Stl.Framebuffer.Bounds.{drawing_bounds}

abbrev small : Framebuffer
small = record { base = λ i. gray 0; width = 20; height = 10; pixels_per_scanline = 21 }

get_pixel-draw_rect_example :
    get_pixel
      (draw_rect small (point (pos 2) (pos 3)) (point (pos 8) (pos 9)) (gray 255))
      (point (pos 5) (pos 5))
    ≡ (if not (is_outside small (point (pos 2) (pos 3)))
          && not (is_outside small (point (pos 8) (pos 9)))
          && not (is_outside small (point (pos 5) (pos 5)))
          && (leb 2 5 && ltb 5 8 && leb 3 5 && ltb 5 9)
        then gray 255
        else get_pixel small (point (pos 5) (pos 5)))
get_pixel-draw_rect_example =
    get_pixel-draw_rect small (point (pos 2) (pos 3)) (point (pos 8) (pos 9)) (gray 255) 5 5
      (omega arith)

drawing_bounds_example :
    ((put_pixel small (point (pos 20) (pos 10)) (gray 255)).base 231 ≡ gray 0)
    × ((draw_rect small (point (pos 20) (pos 10)) (point (pos 8) (pos 9)) (gray 255)).base 231
        ≡ gray 0)
    × ((fill small (gray 255)).base 231 ≡ gray 0)
drawing_bounds_example =
    drawing_bounds small (point (pos 20) (pos 10)) (point (pos 8) (pos 9)) (gray 255) 231 refl
      (omega arith)
