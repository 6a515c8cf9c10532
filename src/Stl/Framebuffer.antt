-- ===== src/Stl/Framebuffer.antt =====
-- src/STL/Graphics/Framebuffer.cpp and ARGB.cpp: single pixels and filled rectangles. `Base` is a
-- function from a pixel's place in memory, counted in pixels, to its color.
pub mod Rect
pub mod Pixels
pub mod Edges
pub mod Text
pub mod Bounds
mod Tests
use electric_os.Base.{
  ℕ, zero, suc, ◌+◌, ◌-◌, ◌*◌, ◌%◌, ◌^◌, Bool, true, false, ◌&&◌, ◌||◌, ◌==◌, if◌then◌else◌,
}
use electric_os.Base.Int.{ℤ, pos, pos_part, neg_part, ltb_ℤ}
use electric_os.Stl.Point.{Point, point}

-- `ARGB`
pub record Argb : Type 0 where
  pub b : ℕ
  pub g : ℕ
  pub r : ℕ
  pub a : ℕ

-- `ARGB(X)`
abbrev pub gray : ℕ → Argb
gray x = record { b = x; g = x; r = x; a = x }

-- `ARGB::ToInt`
pub to_int : Argb → ℕ
to_int c = (c.b + c.g * 2 ^ 8 + c.r * 2 ^ 16 + c.a * 2 ^ 24) % 2 ^ 32

-- `ARGB::operator==`
pub equals : Argb → Argb → Bool
equals c d = (c.a == d.a) || (c.r == d.r) || (c.g == d.g) || (c.b == d.b)

-- `Framebuffer`, without its size in bytes.
pub record Framebuffer : Type 0 where
  pub base : ℕ → Argb
  pub width : ℕ
  pub height : ℕ
  pub pixels_per_scanline : ℕ

-- The test of `GetPixel`, `PutPixel` and `DrawRect`: the edges count as inside.
unfoldable pub is_outside : Framebuffer → Point → Bool
is_outside fb p =
    ltb_ℤ (pos fb.width) p.x || ltb_ℤ p.x (pos 0) || ltb_ℤ (pos fb.height) p.y || ltb_ℤ p.y (pos 0)

abbrev pub place : Framebuffer → ℕ → ℕ → ℕ
place fb x y = x + y * fb.pixels_per_scanline

-- `GetPixel`
pub get_pixel : Framebuffer → Point → Argb
get_pixel fb p =
    if is_outside fb p then gray 0 else fb.base (place fb (pos_part p.x) (pos_part p.y))

-- `*(ARGB*)(…) = Color`
abbrev pub store : Framebuffer → ℕ → Argb → Framebuffer
store fb i color = record fb { base = λ j. if j == i then color else fb.base j }

-- `PutPixel`
pub put_pixel : Framebuffer → Point → Argb → Framebuffer
put_pixel fb p color =
    if is_outside fb p then fb else store fb (place fb (pos_part p.x) (pos_part p.y)) color

-- The inner loop: `n` pixels from `x` on.
pub draw_row : ℕ → Framebuffer → ℕ → ℕ → Argb → Framebuffer
draw_row zero fb x y color = fb
draw_row (suc n) fb x y color = draw_row n (store fb (place fb x y) color) (x + 1) y color

-- The outer loop: `n` rows from `y` on.
pub draw_rows : ℕ → ℕ → Framebuffer → ℕ → ℕ → Argb → Framebuffer
draw_rows zero w fb x y color = fb
draw_rows (suc n) w fb x y color = draw_rows n w (draw_row w fb x y color) x (y + 1) color

-- `DrawRect`
pub draw_rect : Framebuffer → Point → Point → Argb → Framebuffer
draw_rect fb top_left bottom_right color =
    if is_outside fb top_left
    then fb
    else if is_outside fb bottom_right
    then fb
    else draw_rows (pos_part bottom_right.y - pos_part top_left.y)
        (pos_part bottom_right.x - pos_part top_left.x) fb (pos_part top_left.x)
        (pos_part top_left.y) color

-- `Fill`
pub fill : Framebuffer → Argb → Framebuffer
fill fb color = draw_rows fb.height fb.width fb 0 0 color
