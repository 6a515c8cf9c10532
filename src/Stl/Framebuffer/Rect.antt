-- ===== src/Stl/Framebuffer/Rect.antt =====
-- The pixels that a filled rectangle changes.
use native.Mathlib.Nat.{add-mul-mod_self_right, add-mul-div_right, mod-eq_of_lt, div-eq_of_lt}
use electric_os.Base.{
  ℕ, zero, suc, ◌+◌, ◌-◌, ◌*◌, ◌/◌, ◌%◌, ◌≤◌, ◌<◌, Bool, true, false, not, ◌&&◌, ltb, leb, ◌==◌,
  if◌then◌else◌, ◌≡◌, refl, arith, ap, ◌∙◌, sym, if_both,
}
use electric_os.Base.Int.{pos, pos_part}
use electric_os.Stl.Point.{Point, point}
use electric_os.Stl.Framebuffer.{
  Argb, gray, Framebuffer, is_outside, place, get_pixel, store, draw_row, draw_rows, draw_rect,
}

-- A place belongs to one pixel of a row and a scanline.
pub place_unique :
    (pitch x y x' y' : ℕ)
    → x < pitch
    → x' < pitch
    → x + y * pitch ≡ x' + y' * pitch
    → (x ≡ x') × (y ≡ y')
place_unique pitch x y x' y' h h' e =
    let across : x ≡ x' =
      sym (mod-eq_of_lt h)
      ∙ sym (add-mul-mod_self_right x y pitch)
      ∙ ap (λ n. n % pitch) e
      ∙ add-mul-mod_self_right x' y' pitch
      ∙ mod-eq_of_lt h' in
    let some_pitch : 0 < pitch = omega arith in
    let down : x / pitch + y ≡ x' / pitch + y' =
      sym (add-mul-div_right x y some_pitch)
      ∙ ap (λ n. n / pitch) e
      ∙ add-mul-div_right x' y' some_pitch in
    let first : x / pitch ≡ 0 = div-eq_of_lt h in
    let second : x' / pitch ≡ 0 = div-eq_of_lt h' in (across, omega arith)

same_place :
    (pitch x y x' y' : ℕ)
    → x < pitch
    → x' < pitch
    → (x + y * pitch == x' + y' * pitch) ≡ ((x == x') && (y == y'))
same_place pitch x y x' y' h h' = ground (arith, place_unique pitch x y x' y' h h')

module _ (color : Argb) (x' y' : ℕ) where
  -- The color of a place, after a change of a range of a scanline.
  abbrev painted : Bool → Argb → Argb
  painted b old = if b then color else old

  row_step :
      (n x y : ℕ) (old : Argb)
      → painted
          (leb (x + 1) x' && ltb x' (x + 1 + n) && (y == y'))
          (if (x' == x) && (y' == y) then color else old)
        ≡ painted (leb x x' && ltb x' (x + suc n) && (y == y')) old
  row_step n x y old = ground arith

  draw_row-base :
      (n : ℕ) (fb : Framebuffer) (x y : ℕ)
      → x + n ≤ fb.pixels_per_scanline
      → x' < fb.pixels_per_scanline
      → (draw_row n fb x y color).base (place fb x' y')
        ≡ painted (leb x x' && ltb x' (x + n) && (y == y')) (fb.base (place fb x' y'))
  unfolding draw_row
  draw_row-base zero fb x y fits there = ground arith
  draw_row-base (suc n) fb x y fits there =
      let rest = draw_row-base n (store fb (place fb x y) color) (x + 1) y (omega arith) there in
      let same = same_place fb.pixels_per_scanline x' y' x y there (omega arith) in
      rest ∙ rw (same) (row_step n x y (fb.base (place fb x' y')))

  draw_row-pitch :
      (n : ℕ) (fb : Framebuffer) (x y : ℕ)
      → (draw_row n fb x y color).pixels_per_scanline ≡ fb.pixels_per_scanline
  unfolding draw_row
  draw_row-pitch zero fb x y = refl
  draw_row-pitch (suc n) fb x y = draw_row-pitch n (store fb (place fb x y) color) (x + 1) y

  rows_step :
      (n w x y : ℕ) (old : Argb)
      → painted
          (leb x x' && ltb x' (x + w) && leb (y + 1) y' && ltb y' (y + 1 + n))
          (painted (leb x x' && ltb x' (x + w) && (y == y')) old)
        ≡ painted (leb x x' && ltb x' (x + w) && leb y y' && ltb y' (y + suc n)) old
  rows_step n w x y old = ground arith

  pub draw_rows-base :
      (n w : ℕ) (fb : Framebuffer) (x y : ℕ)
      → x + w ≤ fb.pixels_per_scanline
      → x' < fb.pixels_per_scanline
      → (draw_rows n w fb x y color).base (place fb x' y')
        ≡ painted
            (leb x x' && ltb x' (x + w) && leb y y' && ltb y' (y + n))
            (fb.base (place fb x' y'))
  unfolding draw_rows
  draw_rows-base zero w fb x y fits there = ground arith
  draw_rows-base (suc n) w fb x y fits there =
      let pitch = draw_row-pitch w fb x y in
      let row = draw_row w fb x y color in
      let same : place row x' y' ≡ place fb x' y' = ap (λ p. x' + y' * p) pitch in
      let rest = draw_rows-base n w row x (y + 1) (omega arith) (omega arith) in
      ap (draw_rows n w row x (y + 1) color).base (sym same)
      ∙ rest
      ∙ ap (painted (leb x x' && ltb x' (x + w) && leb (y + 1) y' && ltb y' (y + 1 + n)))
          (ap row.base same ∙ draw_row-base w fb x y fits there)
      ∙ rows_step n w x y (fb.base (place fb x' y'))

-- The size and the pitch stay as they were.
pub record SameShape (fb gb : Framebuffer) : Type 0 where
  pub width : gb.width ≡ fb.width
  pub height : gb.height ≡ fb.height
  pub pitch : gb.pixels_per_scanline ≡ fb.pixels_per_scanline

pub draw_row-SameShape :
    (n : ℕ) (fb : Framebuffer) (x y : ℕ) (color : Argb) → SameShape fb (draw_row n fb x y color)
unfolding draw_row
draw_row-SameShape zero fb x y color = record { width = refl; height = refl; pitch = refl }
draw_row-SameShape (suc n) fb x y color =
    let s = draw_row-SameShape n (store fb (place fb x y) color) (x + 1) y color in
    record { width = s.width; height = s.height; pitch = s.pitch }

pub draw_rows-SameShape :
    (n w : ℕ) (fb : Framebuffer) (x y : ℕ) (color : Argb)
    → SameShape fb (draw_rows n w fb x y color)
unfolding draw_rows
draw_rows-SameShape zero w fb x y color = record { width = refl; height = refl; pitch = refl }
draw_rows-SameShape (suc n) w fb x y color =
    let s = draw_row-SameShape w fb x y color in
    let t = draw_rows-SameShape n w (draw_row w fb x y color) x (y + 1) color in
    record { width = t.width ∙ s.width; height = t.height ∙ s.height; pitch = t.pitch ∙ s.pitch }

pub draw_rect-SameShape :
    (fb : Framebuffer) (top_left bottom_right : Point) (color : Argb)
    → SameShape fb (draw_rect fb top_left bottom_right color)
unfolding draw_rect
draw_rect-SameShape fb top_left bottom_right color =
    let same : SameShape fb fb = record { width = refl; height = refl; pitch = refl } in
    if_both (SameShape fb) (is_outside fb top_left) same (
      if_both (SameShape fb) (is_outside fb bottom_right) same
        (draw_rows-SameShape _ _ fb (pos_part top_left.x) (pos_part top_left.y) color))

pub inside_bounds :
    (fb : Framebuffer) (p : Point)
    → is_outside fb p ≡ false
    → (pos_part p.x ≤ fb.width) × (pos_part p.y ≤ fb.height)
unfolding is_outside
inside_bounds fb p h = ground arith

same_range :
    (x a b y c d : ℕ)
    → (leb a x && ltb x (a + (b - a)) && leb c y && ltb y (c + (d - c)))
      ≡ (leb a x && ltb x b && leb c y && ltb y d)
same_range x a b y c d = ground arith

-- A pixel of the buffer after rows were drawn.
rows-pixel :
    (n w : ℕ) (fb : Framebuffer) (left top : ℕ) (color : Argb) (x y : ℕ)
    → fb.width < fb.pixels_per_scanline
    → left + w ≤ fb.width
    → get_pixel (draw_rows n w fb left top color) (point (pos x) (pos y)) ≡ (
        if not (is_outside fb (point (pos x) (pos y)))
          && (leb left x && ltb x (left + w) && leb top y && ltb y (top + n))
        then color
        else get_pixel fb (point (pos x) (pos y)))
unfolding get_pixel is_outside
rows-pixel n w fb left top color x y pitch fits =
    let s = draw_rows-SameShape n w fb left top color in
    rw (s.width, s.height, s.pitch) (seen (is_outside fb (point (pos x) (pos y))) refl)
  where
    seen :
        (b : Bool)
        → is_outside fb (point (pos x) (pos y)) ≡ b
        → (if b then gray 0 else (draw_rows n w fb left top color).base (place fb x y)) ≡ (
            if not b && (leb left x && ltb x (left + w) && leb top y && ltb y (top + n))
            then color
            else if b
            then gray 0
            else fb.base (place fb x y))
    seen true e = refl
    seen false e =
        let inside = inside_bounds fb (point (pos x) (pos y)) e in
        draw_rows-base color x y n w fb left top (omega arith) (omega arith)

-- In a buffer whose scanlines are longer than its width, `DrawRect` gives its color to the
-- pixels from the top left corner on, and before the bottom right one, if both corners and the
-- pixel are inside, and leaves each other pixel as it was.
pub get_pixel-draw_rect :
    (fb : Framebuffer) (top_left bottom_right : Point) (color : Argb) (x y : ℕ)
    → fb.width < fb.pixels_per_scanline
    → get_pixel (draw_rect fb top_left bottom_right color) (point (pos x) (pos y)) ≡ (
        if not (is_outside fb top_left)
          && not (is_outside fb bottom_right)
          && not (is_outside fb (point (pos x) (pos y)))
          && (leb (pos_part top_left.x) x
              && ltb x (pos_part bottom_right.x)
              && leb (pos_part top_left.y) y
              && ltb y (pos_part bottom_right.y))
        then color
        else get_pixel fb (point (pos x) (pos y)))
unfolding draw_rect
get_pixel-draw_rect fb top_left bottom_right color x y pitch =
    corner (is_outside fb top_left) (is_outside fb bottom_right) refl refl
  where
    corner :
        (a b : Bool)
        → is_outside fb top_left ≡ a
        → is_outside fb bottom_right ≡ b
        → get_pixel
            (if a
              then fb
              else if b
              then fb
              else draw_rows
                  (pos_part bottom_right.y - pos_part top_left.y)
                  (pos_part bottom_right.x - pos_part top_left.x)
                  fb
                  (pos_part top_left.x)
                  (pos_part top_left.y)
                  color)
            (point (pos x) (pos y))
          ≡ (if not a
                && not b
                && not (is_outside fb (point (pos x) (pos y)))
                && (leb (pos_part top_left.x) x
                    && ltb x (pos_part bottom_right.x)
                    && leb (pos_part top_left.y) y
                    && ltb y (pos_part bottom_right.y))
              then color
              else get_pixel fb (point (pos x) (pos y)))
    corner true b e e' = refl
    corner false true e e' = refl
    corner false false e e' =
        let first = inside_bounds fb top_left e in
        let last = inside_bounds fb bottom_right e' in
        rows-pixel (pos_part bottom_right.y - pos_part top_left.y)
          (pos_part bottom_right.x - pos_part top_left.x) fb (pos_part top_left.x)
          (pos_part top_left.y) color x y pitch (omega arith)
        ∙ ap
            (λ r.
              if not (is_outside fb (point (pos x) (pos y))) && r
              then color
              else get_pixel fb (point (pos x) (pos y)))
            (same_range x (pos_part top_left.x) (pos_part bottom_right.x) y (pos_part top_left.y)
              (pos_part bottom_right.y))
