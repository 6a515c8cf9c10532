-- ===== src/Stl/Framebuffer/Edges.antt =====
-- Raised and sunken edges of src/STL/Graphics/Framebuffer.cpp: four bars of RAISED_WIDTH pixels
-- around a rectangle, and two corners that are shared by the colors.
pub mod Keeps
pub mod Band
pub mod Raised
mod Tests
use electric_os.Base.{ℕ, zero, suc, ◌+◌, ltb, if◌then◌else◌}
use electric_os.Base.Int.{ℤ, pos, pos_part, ◌+ℤ◌, ◌-ℤ◌}
use electric_os.Stl.Point.{Point, point}
use electric_os.Stl.Framebuffer.{Argb, gray, Framebuffer, put_pixel, draw_rect}

-- `RAISED_WIDTH`
abbrev pub raised_width : ℕ
raised_width = 4

-- An inner loop of `PutPixel`, `n` pixels from `x` on.
pub put_row : ℕ → Framebuffer → ℤ → ℤ → Argb → Framebuffer
put_row zero fb x y color = fb
put_row (suc n) fb x y color = put_row n (put_pixel fb (point x y) color) (x +ℤ pos 1) y color

-- An outer loop, `n` rows of `w` pixels from `y` on.
pub put_block : ℕ → ℕ → Framebuffer → ℤ → ℤ → Argb → Framebuffer
put_block zero w fb x y color = fb
put_block (suc n) w fb x y color = put_block n w (put_row w fb x y color) x (y +ℤ pos 1) color

-- The rounds of `for (int i = from; i < to; i++)`.
abbrev pub rounds : ℤ → ℤ → ℕ
rounds from to = pos_part (to -ℤ from)

-- One round of the loops of the corners.
pub put_corner : Framebuffer → Point → Point → Argb → Argb → ℕ → ℕ → Framebuffer
put_corner fb top_left bottom_right high low x y =
    let color = if ltb (y + x) raised_width then high else low in
    let right =
      put_pixel fb (point (bottom_right.x +ℤ pos x) (top_left.y -ℤ pos raised_width +ℤ pos y))
        color in
    put_pixel right (point (top_left.x -ℤ pos raised_width +ℤ pos x) (bottom_right.y +ℤ pos y))
      color

-- `n` rounds from `x` on.
pub corner_row : ℕ → Framebuffer → Point → Point → Argb → Argb → ℕ → ℕ → Framebuffer
corner_row zero fb top_left bottom_right high low x y = fb
corner_row (suc n) fb top_left bottom_right high low x y =
    corner_row n (put_corner fb top_left bottom_right high low x y) top_left bottom_right high low
      (x + 1) y

-- `n` rows from `y` on.
pub corner_rows : ℕ → Framebuffer → Point → Point → Argb → Argb → ℕ → Framebuffer
corner_rows zero fb top_left bottom_right high low y = fb
corner_rows (suc n) fb top_left bottom_right high low y =
    corner_rows n (corner_row raised_width fb top_left bottom_right high low 0 y) top_left
      bottom_right high low (y + 1)

-- `DrawRectEdge`
pub draw_rect_edge : Framebuffer → Point → Point → Argb → Argb → Framebuffer
unfolding put_block corner_rows
draw_rect_edge fb top_left bottom_right high low =
    let left = top_left.x -ℤ pos raised_width in
    let right = bottom_right.x +ℤ pos raised_width in
    let top = top_left.y -ℤ pos raised_width in
    let bottom = bottom_right.y +ℤ pos raised_width in
    let w = rounds left right in
    let h = rounds top bottom in
    let f1 = put_block (rounds top top_left.y) w fb left top high in
    let f2 = put_block (rounds bottom_right.y bottom) w f1 left bottom_right.y low in
    let f3 = put_block h (rounds left top_left.x) f2 left top high in
    let f4 = put_block h (rounds bottom_right.x right) f3 bottom_right.x top low in
    corner_rows raised_width f4 top_left bottom_right high low 0

-- `RAISEDHIGHCOLOR` and `RAISEDLOWCOLOR`
abbrev pub raised_high_color : Argb
raised_high_color = gray 255

abbrev pub raised_low_color : Argb
raised_low_color = gray 60

-- `DrawRaisedRectEdge`
pub draw_raised_rect_edge : Framebuffer → Point → Point → Framebuffer
draw_raised_rect_edge fb top_left bottom_right =
    draw_rect_edge fb top_left bottom_right raised_high_color raised_low_color

-- `DrawRaisedRect`
pub draw_raised_rect : Framebuffer → Point → Point → Argb → Framebuffer
draw_raised_rect fb top_left bottom_right color =
    draw_raised_rect_edge (draw_rect fb top_left bottom_right color) top_left bottom_right

-- `DrawSunkenRectEdge`
pub draw_sunken_rect_edge : Framebuffer → Point → Point → Framebuffer
draw_sunken_rect_edge fb top_left bottom_right =
    draw_rect_edge fb top_left bottom_right raised_low_color raised_high_color

-- `DrawSunkenRect`
pub draw_sunken_rect : Framebuffer → Point → Point → Argb → Framebuffer
draw_sunken_rect fb top_left bottom_right color =
    draw_sunken_rect_edge (draw_rect fb top_left bottom_right color) top_left bottom_right
