-- ===== src/Stl/Framebuffer/Bounds.antt =====
-- The memory that drawing on the buffer of a process changes.
use native.Mathlib.Nat.{mul-le-mul_right, suc-mul}
use electric_os.Base.{
  ℕ, zero, suc, ◌+◌, ◌-◌, ◌*◌, ◌≤◌, ◌<◌, Bool, true, false, ◌==◌, if◌then◌else◌, ◌≡◌, refl, arith,
  ap, ◌∙◌,
}
use electric_os.Base.Int.{pos_part}
use electric_os.Stl.Point.{Point}
use electric_os.Stl.Framebuffer.{
  Argb, Framebuffer, is_outside, place, store, put_pixel, draw_row, draw_rows, draw_rect, fill,
}
use electric_os.Stl.Framebuffer.Rect.{inside_bounds, draw_row-SameShape}

row_end : (y rows pitch : ℕ) → y < rows → y * pitch + pitch ≤ rows * pitch
row_end y rows pitch h =
    let step = suc-mul y pitch in
    let le = mul-le-mul_right {m = suc y} {n = rows} pitch h in omega arith

module _ (color : Argb) (i : ℕ) where
  store-beyond : (fb : Framebuffer) (j : ℕ) → j < i → (store fb j color).base i ≡ fb.base i
  store-beyond fb j h = let other : (i == j) ≡ false = ground arith in rw (other) refl

  draw_row-beyond :
      (n : ℕ) (fb : Framebuffer) (x y : ℕ)
      → x + n ≤ fb.pixels_per_scanline
      → y * fb.pixels_per_scanline + fb.pixels_per_scanline ≤ i
      → (draw_row n fb x y color).base i ≡ fb.base i
  unfolding draw_row
  draw_row-beyond zero fb x y fits beyond = refl
  draw_row-beyond (suc n) fb x y fits beyond =
      draw_row-beyond n (store fb (place fb x y) color) (x + 1) y (omega arith) beyond
      ∙ store-beyond fb (place fb x y) (omega arith)

  draw_rows-beyond :
      (n w : ℕ) (fb : Framebuffer) (x y rows pitch : ℕ)
      → fb.pixels_per_scanline ≡ pitch
      → x + w ≤ pitch
      → y + n ≤ rows
      → rows * pitch ≤ i
      → (draw_rows n w fb x y color).base i ≡ fb.base i
  unfolding draw_rows
  draw_rows-beyond zero w fb x y rows pitch is fits inside beyond = refl
  draw_rows-beyond (suc n) w fb x y rows pitch is fits inside beyond =
      let s = draw_row-SameShape w fb x y color in
      let last = row_end y rows pitch (omega arith) in
      let here : y * fb.pixels_per_scanline + fb.pixels_per_scanline ≤ i = rw (is) (omega arith) in
      draw_rows-beyond n w (draw_row w fb x y color) x (y + 1) rows pitch (s.pitch ∙ is) fits
        (omega arith) beyond
      ∙ draw_row-beyond w fb x y (omega arith) here

  put_pixel-beyond :
      (fb : Framebuffer) (p : Point)
      → fb.pixels_per_scanline ≡ fb.width + 1
      → (fb.height + 1) * (fb.width + 1) ≤ i
      → (put_pixel fb p color).base i ≡ fb.base i
  unfolding put_pixel
  put_pixel-beyond fb p pitch beyond = at (is_outside fb p) refl
    where
      at :
          (b : Bool)
          → is_outside fb p ≡ b
          → (if b then fb else store fb (place fb (pos_part p.x) (pos_part p.y)) color).base i
            ≡ fb.base i
      at true e = refl
      at false e =
          let inside = inside_bounds fb p e in
          let last = row_end (pos_part p.y) (fb.height + 1) (fb.width + 1) (omega arith) in
          let same = ap (λ n. pos_part p.y * n) pitch in
          store-beyond fb (place fb (pos_part p.x) (pos_part p.y)) (omega arith)

  fill-beyond :
      (fb : Framebuffer)
      → fb.pixels_per_scanline ≡ fb.width + 1
      → (fb.height + 1) * (fb.width + 1) ≤ i
      → (fill fb color).base i ≡ fb.base i
  unfolding fill
  fill-beyond fb pitch beyond =
      draw_rows-beyond fb.height fb.width fb 0 0 (fb.height + 1) (fb.width + 1) pitch (omega arith)
        (omega arith) beyond

  draw_rect-beyond :
      (fb : Framebuffer) (top_left bottom_right : Point)
      → fb.pixels_per_scanline ≡ fb.width + 1
      → (fb.height + 1) * (fb.width + 1) ≤ i
      → (draw_rect fb top_left bottom_right color).base i ≡ fb.base i
  unfolding draw_rect
  draw_rect-beyond fb top_left bottom_right pitch beyond =
      corner (is_outside fb top_left) (is_outside fb bottom_right) refl refl
    where
      corner :
          (a b : Bool)
          → is_outside fb top_left ≡ a
          → is_outside fb bottom_right ≡ b
          → (if a
                then fb
                else if b
                then fb
                else draw_rows
                    (pos_part bottom_right.y - pos_part top_left.y)
                    (pos_part bottom_right.x - pos_part top_left.x)
                    fb
                    (pos_part top_left.x)
                    (pos_part top_left.y)
                    color).base
              i
            ≡ fb.base i
      corner true b e e' = refl
      corner false true e e' = refl
      corner false false e e' =
          let first = inside_bounds fb top_left e in
          let last = inside_bounds fb bottom_right e' in
          draw_rows-beyond (pos_part bottom_right.y - pos_part top_left.y)
            (pos_part bottom_right.x - pos_part top_left.x) fb (pos_part top_left.x)
            (pos_part top_left.y) (fb.height + 1) (fb.width + 1) pitch (omega arith) (omega arith)
            beyond

-- In a buffer whose scanlines are longer than its width by one, as the processes' are,
-- `PutPixel`, `DrawRect` and `Fill` change no pixel behind the one row more than its height that
-- is allocated.
pub drawing_bounds :
    (fb : Framebuffer) (p q : Point) (color : Argb) (i : ℕ)
    → fb.pixels_per_scanline ≡ fb.width + 1
    → (fb.height + 1) * (fb.width + 1) ≤ i
    → ((put_pixel fb p color).base i ≡ fb.base i)
      × ((draw_rect fb p q color).base i ≡ fb.base i)
      × ((fill fb color).base i ≡ fb.base i)
drawing_bounds fb p q color i pitch beyond = (
  put_pixel-beyond color i fb p pitch beyond,
  draw_rect-beyond color i fb p q pitch beyond,
  fill-beyond color i fb pitch beyond,
)
