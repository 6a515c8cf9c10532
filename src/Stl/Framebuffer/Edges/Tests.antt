-- ===== src/Stl/Framebuffer/Edges/Tests.antt =====
-- A button on a buffer of 20 by 20 pixels.
use electric_os.Base.{◌≡◌, refl, arith, inl}
use electric_os.Base.Int.{pos, ◌+ℤ◌}
use electric_os.Stl.Point.{point}
use electric_os.Stl.Framebuffer.{Framebuffer, gray, is_outside, get_pixel}
use electric_os.Stl.Framebuffer.Edges.{draw_raised_rect, draw_sunken_rect}
use electric_os.Stl.Framebuffer.Edges.Band.{Inside}
use electric_os.Stl.Framebuffer.Edges.Raised.{raised_sunken_lem, seen}

abbrev square : Framebuffer
square = record { base = λ i. gray 0; width = 20; height = 20; pixels_per_scanline = 21 }

in_button : Inside (point (pos 5) (pos 5)) (point (pos 4) (pos 4)) (point (pos 12) (pos 12))
unfolding ◌+ℤ◌
in_button = omega arith

raised_sunken_lem_example :
    (get_pixel
        (draw_raised_rect square (point (pos 4) (pos 4)) (point (pos 12) (pos 12)) (gray 200))
        (point (pos 5) (pos 5))
      ≡ seen square
          (point (pos 4) (pos 4))
          (point (pos 12) (pos 12))
          (gray 200)
          5
          5
          (inl in_button))
    × (get_pixel
          (draw_sunken_rect square (point (pos 4) (pos 4)) (point (pos 12) (pos 12)) (gray 200))
          (point (pos 5) (pos 5))
        ≡ seen square
            (point (pos 4) (pos 4))
            (point (pos 12) (pos 12))
            (gray 200)
            5
            5
            (inl in_button))
unfolding is_outside
raised_sunken_lem_example =
    raised_sunken_lem square (point (pos 4) (pos 4)) (point (pos 12) (pos 12)) (gray 200) 5 5
      (inl in_button) (omega arith) refl refl (omega arith)
