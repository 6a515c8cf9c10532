-- ===== src/Stl/Framebuffer/Edges/Band.antt =====
-- Which pixels the edges of a rectangle leave alone.
use electric_os.Base.{
  ℕ, zero, suc, ◌+◌, ◌≤◌, ◌<◌, ◌≡◌, ◌≢◌, arith, inl, inr, ◌⊎◌, ltb, if◌then◌else◌,
}
use electric_os.Base.Int.{ℤ, pos, neg_part, ◌+ℤ◌, ◌-ℤ◌, ◌≤ℤ◌, int_laws}
use electric_os.Stl.Point.{Point, point}
use electric_os.Stl.Framebuffer.{Argb, Framebuffer, put_pixel}
use electric_os.Stl.Framebuffer.Edges.{
  raised_width, rounds, put_corner, corner_row, corner_rows, draw_rect_edge,
}
use electric_os.Stl.Framebuffer.Edges.Keeps.{
  Keeps, HasPitch, Keeps-refl, Keeps-trans, Keeps-HasPitch, put_pixel-Keeps, Apart, Apart-ne,
  put_block-Keeps,
}

-- A loop from `a` to `b` ends at `b`.
rounds_end : (a b : ℤ) → a ≤ℤ b → (b ≤ℤ a +ℤ pos (rounds a b)) × (a +ℤ pos (rounds a b) ≤ℤ b)
rounds_end a b h = let exact : neg_part (b -ℤ a) ≡ 0 = unfold ◌-ℤ◌ in ground arith in omega int_laws

module _ (q : Point) where
  -- The pixel is inside of the rectangle, or farther from it than the edge is wide.
  abbrev pub Inside : Point → Point → Type 0
  Inside top_left bottom_right =
      (top_left.x ≤ℤ q.x)
      × (q.x +ℤ pos 1 ≤ℤ bottom_right.x)
      × (top_left.y ≤ℤ q.y)
      × (q.y +ℤ pos 1 ≤ℤ bottom_right.y)

  abbrev pub Far : Point → Point → Type 0
  Far top_left bottom_right =
      (q.x +ℤ pos 5 ≤ℤ top_left.x)
      ⊎ (bottom_right.x +ℤ pos 4 ≤ℤ q.x)
      ⊎ (q.y +ℤ pos 5 ≤ℤ top_left.y)
      ⊎ (bottom_right.y +ℤ pos 4 ≤ℤ q.y)

  -- `top_left` is not below or right of `bottom_right`.
  abbrev pub IsRect : Point → Point → Type 0
  IsRect top_left bottom_right = (top_left.x ≤ℤ bottom_right.x) × (top_left.y ≤ℤ bottom_right.y)

  module _ (tl br : Point) (rect : IsRect tl br) (off : Inside tl br ⊎ Far tl br) where
    abbrev left : ℤ
    left = tl.x -ℤ pos raised_width

    abbrev right : ℤ
    right = br.x +ℤ pos raised_width

    abbrev top : ℤ
    top = tl.y -ℤ pos raised_width

    abbrev bottom : ℤ
    bottom = br.y +ℤ pos raised_width

    above : Apart q left top (rounds left right) (rounds top tl.y)
    above = bar off
      where
        across :
            (right ≤ℤ left +ℤ pos (rounds left right)) × (left +ℤ pos (rounds left right) ≤ℤ right)
        across = rounds_end left right (omega int_laws)

        down : (tl.y ≤ℤ top +ℤ pos (rounds top tl.y)) × (top +ℤ pos (rounds top tl.y) ≤ℤ tl.y)
        down = rounds_end top tl.y (omega int_laws)

        bar : Inside tl br ⊎ Far tl br → Apart q left top (rounds left right) (rounds top tl.y)
        bar (inl i) = inr (inr (inr (omega (int_laws, across, down))))
        bar (inr (inl f)) = inl (omega (int_laws, across, down))
        bar (inr (inr (inl f))) = inr (inl (omega (int_laws, across, down)))
        bar (inr (inr (inr (inl f)))) = inr (inr (inl (omega (int_laws, across, down))))
        bar (inr (inr (inr (inr f)))) = inr (inr (inr (omega (int_laws, across, down))))

    below : Apart q left br.y (rounds left right) (rounds br.y bottom)
    below = bar off
      where
        across :
            (right ≤ℤ left +ℤ pos (rounds left right)) × (left +ℤ pos (rounds left right) ≤ℤ right)
        across = rounds_end left right (omega int_laws)

        down :
            (bottom ≤ℤ br.y +ℤ pos (rounds br.y bottom))
            × (br.y +ℤ pos (rounds br.y bottom) ≤ℤ bottom)
        down = rounds_end br.y bottom (omega int_laws)

        bar : Inside tl br ⊎ Far tl br → Apart q left br.y (rounds left right) (rounds br.y bottom)
        bar (inl i) = inr (inr (inl (omega (int_laws, across, down))))
        bar (inr (inl f)) = inl (omega (int_laws, across, down))
        bar (inr (inr (inl f))) = inr (inl (omega (int_laws, across, down)))
        bar (inr (inr (inr (inl f)))) = inr (inr (inl (omega (int_laws, across, down))))
        bar (inr (inr (inr (inr f)))) = inr (inr (inr (omega (int_laws, across, down))))

    at_left : Apart q left top (rounds left tl.x) (rounds top bottom)
    at_left = bar off
      where
        across : (tl.x ≤ℤ left +ℤ pos (rounds left tl.x)) × (left +ℤ pos (rounds left tl.x) ≤ℤ tl.x)
        across = rounds_end left tl.x (omega int_laws)

        down :
            (bottom ≤ℤ top +ℤ pos (rounds top bottom)) × (top +ℤ pos (rounds top bottom) ≤ℤ bottom)
        down = rounds_end top bottom (omega int_laws)

        bar : Inside tl br ⊎ Far tl br → Apart q left top (rounds left tl.x) (rounds top bottom)
        bar (inl i) = inr (inl (omega (int_laws, across, down)))
        bar (inr (inl f)) = inl (omega (int_laws, across, down))
        bar (inr (inr (inl f))) = inr (inl (omega (int_laws, across, down)))
        bar (inr (inr (inr (inl f)))) = inr (inr (inl (omega (int_laws, across, down))))
        bar (inr (inr (inr (inr f)))) = inr (inr (inr (omega (int_laws, across, down))))

    at_right : Apart q br.x top (rounds br.x right) (rounds top bottom)
    at_right = bar off
      where
        across :
            (right ≤ℤ br.x +ℤ pos (rounds br.x right)) × (br.x +ℤ pos (rounds br.x right) ≤ℤ right)
        across = rounds_end br.x right (omega int_laws)

        down :
            (bottom ≤ℤ top +ℤ pos (rounds top bottom)) × (top +ℤ pos (rounds top bottom) ≤ℤ bottom)
        down = rounds_end top bottom (omega int_laws)

        bar : Inside tl br ⊎ Far tl br → Apart q br.x top (rounds br.x right) (rounds top bottom)
        bar (inl i) = inl (omega (int_laws, across, down))
        bar (inr (inl f)) = inl (omega (int_laws, across, down))
        bar (inr (inr (inl f))) = inr (inl (omega (int_laws, across, down)))
        bar (inr (inr (inr (inl f)))) = inr (inr (inl (omega (int_laws, across, down))))
        bar (inr (inr (inr (inr f)))) = inr (inr (inr (omega (int_laws, across, down))))

    -- A single pixel of the corners.
    corner_right :
        (x y : ℕ) → x < 4 → y < 4 → point (br.x +ℤ pos x) (tl.y -ℤ pos raised_width +ℤ pos y) ≢ q
    corner_right x y hx hy = Apart-ne q _ _ 0 0 (bar off)
      where
        bar :
            Inside tl br ⊎ Far tl br
            → Apart q (br.x +ℤ pos x) (tl.y -ℤ pos raised_width +ℤ pos y) 1 1
        bar (inl i) = inl (omega int_laws)
        bar (inr (inl f)) = inl (omega int_laws)
        bar (inr (inr (inl f))) = inr (inl (omega int_laws))
        bar (inr (inr (inr (inl f)))) = inr (inr (inl (omega int_laws)))
        bar (inr (inr (inr (inr f)))) = inr (inr (inr (omega int_laws)))

    corner_left :
        (x y : ℕ) → x < 4 → y < 4 → point (tl.x -ℤ pos raised_width +ℤ pos x) (br.y +ℤ pos y) ≢ q
    corner_left x y hx hy = Apart-ne q _ _ 0 0 (bar off)
      where
        bar :
            Inside tl br ⊎ Far tl br
            → Apart q (tl.x -ℤ pos raised_width +ℤ pos x) (br.y +ℤ pos y) 1 1
        bar (inl i) = inr (inl (omega int_laws))
        bar (inr (inl f)) = inl (omega int_laws)
        bar (inr (inr (inl f))) = inr (inl (omega int_laws))
        bar (inr (inr (inr (inl f)))) = inr (inr (inl (omega int_laws)))
        bar (inr (inr (inr (inr f)))) = inr (inr (inr (omega int_laws)))

    put_corner-Keeps :
        (fb : Framebuffer) (high low : Argb) (x y : ℕ)
        → HasPitch fb
        → x < 4
        → y < 4
        → Keeps q fb (put_corner fb tl br high low x y)
    unfolding put_corner
    put_corner-Keeps fb high low x y pitch hx hy =
        let color = if ltb (y + x) raised_width then high else low in
        let p = point (br.x +ℤ pos x) (tl.y -ℤ pos raised_width +ℤ pos y) in
        let k = put_pixel-Keeps q fb p color pitch (corner_right x y hx hy) in
        Keeps-trans q k (
          put_pixel-Keeps q (put_pixel fb p color)
            (point (tl.x -ℤ pos raised_width +ℤ pos x) (br.y +ℤ pos y)) color
            (Keeps-HasPitch q k pitch) (corner_left x y hx hy))

    corner_row-Keeps :
        (n : ℕ) (fb : Framebuffer) (high low : Argb) (x y : ℕ)
        → HasPitch fb
        → x + n ≤ 4
        → y < 4
        → Keeps q fb (corner_row n fb tl br high low x y)
    unfolding corner_row
    corner_row-Keeps zero fb high low x y pitch hx hy = Keeps-refl q fb
    corner_row-Keeps (suc n) fb high low x y pitch hx hy =
        let k = put_corner-Keeps fb high low x y pitch (omega arith) hy in
        Keeps-trans q k (
          corner_row-Keeps n (put_corner fb tl br high low x y) high low (x + 1) y
            (Keeps-HasPitch q k pitch) (omega arith) hy)

    corner_rows-Keeps :
        (n : ℕ) (fb : Framebuffer) (high low : Argb) (y : ℕ)
        → HasPitch fb
        → y + n ≤ 4
        → Keeps q fb (corner_rows n fb tl br high low y)
    unfolding corner_rows
    corner_rows-Keeps zero fb high low y pitch hy = Keeps-refl q fb
    corner_rows-Keeps (suc n) fb high low y pitch hy =
        let k = corner_row-Keeps raised_width fb high low 0 y pitch (omega arith) (omega arith) in
        Keeps-trans q k (
          corner_rows-Keeps n (corner_row raised_width fb tl br high low 0 y) high low (y + 1)
            (Keeps-HasPitch q k pitch) (omega arith))

    pub draw_rect_edge-Keeps :
        (fb : Framebuffer) (high low : Argb)
        → HasPitch fb
        → Keeps q fb (draw_rect_edge fb tl br high low)
    unfolding draw_rect_edge
    draw_rect_edge-Keeps fb high low pitch =
        let k1 = put_block-Keeps q _ _ fb left top high pitch above in
        let k2 =
          Keeps-trans q k1
            (put_block-Keeps q _ _ _ left br.y low (Keeps-HasPitch q k1 pitch) below) in
        let k3 =
          Keeps-trans q k2
            (put_block-Keeps q _ _ _ left top high (Keeps-HasPitch q k2 pitch) at_left) in
        let k4 =
          Keeps-trans q k3
            (put_block-Keeps q _ _ _ br.x top low (Keeps-HasPitch q k3 pitch) at_right) in
        Keeps-trans q k4
          (corner_rows-Keeps raised_width _ high low 0 (Keeps-HasPitch q k4 pitch) (omega arith))
