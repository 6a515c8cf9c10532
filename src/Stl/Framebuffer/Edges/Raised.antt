-- ===== src/Stl/Framebuffer/Edges/Raised.antt =====
-- What is seen of a raised and of a sunken rectangle inside of its edges, and around them.
use electric_os.Base.{
  ℕ, ◌<◌, ◌≤◌, ◌≡◌, arith, ◌∙◌, inl, inr, ◌⊎◌, Bool, false, not, ◌&&◌, ltb, leb, if◌then◌else◌,
}
use electric_os.Base.Int.{pos, pos_part, neg_part, int_laws}
use electric_os.Stl.Point.{Point, point}
use electric_os.Stl.Framebuffer.{Argb, Framebuffer, is_outside, get_pixel, draw_rect}
use electric_os.Stl.Framebuffer.Rect.{get_pixel-draw_rect, draw_rect-SameShape}
use electric_os.Stl.Framebuffer.Pixels.{inside_parts}
use electric_os.Stl.Framebuffer.Edges.{
  draw_raised_rect, draw_raised_rect_edge, draw_sunken_rect, draw_sunken_rect_edge,
  raised_high_color, raised_low_color,
}
use electric_os.Stl.Framebuffer.Edges.Keeps.{HasPitch}
use electric_os.Stl.Framebuffer.Edges.Band.{Inside, Far, IsRect, draw_rect_edge-Keeps}

inside_at :
    (fb : Framebuffer) (x y : ℕ)
    → x ≤ fb.width
    → y ≤ fb.height
    → is_outside fb (point (pos x) (pos y)) ≡ false
unfolding is_outside
inside_at fb x y h v = ground arith

module _ (a b c d x y : ℕ) (new old : Argb) where
  abbrev in_range : Bool
  in_range = leb a x && ltb x b && leb c y && ltb y d

  pick_in : a ≤ x → x < b → c ≤ y → y < d → (if in_range then new else old) ≡ new
  pick_in h1 h2 h3 h4 = ground arith

pick_out :
    (o : Bool) (a b c d x y : ℕ) (new old : Argb)
    → ¬ ((a ≤ x) × (x < b) × (c ≤ y) × (y < d))
    → (if not o && in_range a b c d x y new old then new else old) ≡ old
pick_out o a b c d x y new old h = ground arith

module _ (fb : Framebuffer) (tl br : Point) (color : Argb) (x y : ℕ) where
  abbrev q : Point
  q = point (pos x) (pos y)

  abbrev pub seen : Inside q tl br ⊎ Far q tl br → Argb
  seen (inl i) = color
  seen (inr f) = get_pixel fb q

  beyond :
      Far q tl br
      → neg_part br.x ≡ 0
      → neg_part br.y ≡ 0
      → ¬ ((pos_part tl.x ≤ x) × (x < pos_part br.x) × (pos_part tl.y ≤ y) × (y < pos_part br.y))
  beyond (inl f) h v i = omega int_laws
  beyond (inr (inl f)) h v i = omega int_laws
  beyond (inr (inr (inl f))) h v i = omega int_laws
  beyond (inr (inr (inr f))) h v i = omega int_laws

  rect-seen :
      (off : Inside q tl br ⊎ Far q tl br)
      → HasPitch fb
      → is_outside fb tl ≡ false
      → is_outside fb br ≡ false
      → get_pixel (draw_rect fb tl br color) q ≡ seen off
  rect-seen (inl i) pitch first last =
      let a = inside_parts fb tl first in
      let b = inside_parts fb br last in
      let at = inside_at fb x y (omega int_laws) (omega int_laws) in
      get_pixel-draw_rect fb tl br color x y pitch
      ∙ rw (first, last, at)
          (pick_in (pos_part tl.x) (pos_part br.x) (pos_part tl.y) (pos_part br.y) x y color
            (get_pixel fb q) (omega int_laws) (omega int_laws) (omega int_laws) (omega int_laws))
  rect-seen (inr f) pitch first last =
      let b = inside_parts fb br last in
      get_pixel-draw_rect fb tl br color x y pitch
      ∙ rw (first, last)
          (pick_out (is_outside fb q) (pos_part tl.x) (pos_part br.x) (pos_part tl.y)
            (pos_part br.y) x y color (get_pixel fb q) (beyond f b.0 b.1))

  -- Where the scanlines are longer than the width and the corners are in the buffer and in
  -- order: a pixel inside of a raised or a sunken rectangle has the rectangle's color, and one
  -- that is at least as far from it as the edge is wide is as before.
  pub raised_sunken_lem :
      (off : Inside q tl br ⊎ Far q tl br)
      → HasPitch fb
      → is_outside fb tl ≡ false
      → is_outside fb br ≡ false
      → IsRect q tl br
      → (get_pixel (draw_raised_rect fb tl br color) q ≡ seen off)
        × (get_pixel (draw_sunken_rect fb tl br color) q ≡ seen off)
  unfolding draw_raised_rect draw_raised_rect_edge draw_sunken_rect draw_sunken_rect_edge
  raised_sunken_lem off pitch first last rect =
      let r = draw_rect fb tl br color in
      let s = draw_rect-SameShape fb tl br color in
      let flat = rect-seen off pitch first last in
      let wide : HasPitch r = omega (arith, s.width, s.pitch) in
      (
        (draw_rect_edge-Keeps q tl br rect off r raised_high_color raised_low_color wide).pixel
            ∙ flat,
        (draw_rect_edge-Keeps q tl br rect off r raised_low_color raised_high_color wide).pixel
            ∙ flat,
      )
