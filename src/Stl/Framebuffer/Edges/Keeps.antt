-- ===== src/Stl/Framebuffer/Edges/Keeps.antt =====
-- Drawing that leaves a pixel alone: single pixels and blocks of them.
use electric_os.Base.{ℕ, zero, suc, ◌<◌, ◌≡◌, ◌≢◌, refl, arith, ap, ◌∙◌, ◌⊎◌}
use electric_os.Base.Int.{ℤ, pos, pos_part, neg_part, ◌+ℤ◌, ◌≤ℤ◌, int_laws}
use electric_os.Stl.Point.{Point, point}
use electric_os.Stl.Framebuffer.{Argb, Framebuffer, get_pixel, put_pixel}
use electric_os.Stl.Framebuffer.Rect.{SameShape}
use electric_os.Stl.Framebuffer.Pixels.{
  SameShape-refl, SameShape-trans, put_pixel-SameShape, get_pixel-put_pixel_ne,
}
use electric_os.Stl.Framebuffer.Edges.{put_row, put_block}

-- `gb` is `fb` as far as the pixel `q` can tell.
pub record Keeps (q : Point) (fb gb : Framebuffer) : Type 0 where
  pub shape : SameShape fb gb
  pub pixel : get_pixel gb q ≡ get_pixel fb q

abbrev pub HasPitch : Framebuffer → Type 0
HasPitch fb = fb.width < fb.pixels_per_scanline

module _ (q : Point) where
  pub Keeps-refl : (fb : Framebuffer) → Keeps q fb fb
  Keeps-refl fb = record { shape = SameShape-refl fb; pixel = refl }

  pub Keeps-trans : {fb gb hb : Framebuffer} → Keeps q fb gb → Keeps q gb hb → Keeps q fb hb
  Keeps-trans s t = record { shape = SameShape-trans s.shape t.shape; pixel = t.pixel ∙ s.pixel }

  pub Keeps-HasPitch : {fb gb : Framebuffer} → Keeps q fb gb → HasPitch fb → HasPitch gb
  Keeps-HasPitch k h = omega (arith, k.shape.width, k.shape.pitch)

  pub put_pixel-Keeps :
      (fb : Framebuffer) (p : Point) (color : Argb)
      → HasPitch fb
      → p ≢ q
      → Keeps q fb (put_pixel fb p color)
  put_pixel-Keeps fb p color pitch n = record {
    shape = put_pixel-SameShape fb p color;
    pixel = get_pixel-put_pixel_ne fb p color q pitch n;
  }

  -- The pixel is not among `w` by `n` pixels from (`x`, `y`) on.
  abbrev pub Apart : ℤ → ℤ → ℕ → ℕ → Type 0
  Apart x y w n =
      (q.x +ℤ pos 1 ≤ℤ x) ⊎ (x +ℤ pos w ≤ℤ q.x) ⊎ (q.y +ℤ pos 1 ≤ℤ y) ⊎ (y +ℤ pos n ≤ℤ q.y)

  pub Apart-ne : (x y : ℤ) (w n : ℕ) → Apart x y (suc w) (suc n) → point x y ≢ q
  Apart-ne x y w n a e =
      let h : x ≡ q.x = ap (λ (p : Point). p.x) e in
      let v : y ≡ q.y = ap (λ (p : Point). p.y) e in
      omega (int_laws, ap pos_part h, ap neg_part h, ap pos_part v, ap neg_part v)

  put_row-Keeps :
      (n : ℕ) (fb : Framebuffer) (x y : ℤ) (color : Argb)
      → HasPitch fb
      → Apart x y n 1
      → Keeps q fb (put_row n fb x y color)
  unfolding put_row
  put_row-Keeps zero fb x y color pitch a = Keeps-refl fb
  put_row-Keeps (suc n) fb x y color pitch a =
      let k = put_pixel-Keeps fb (point x y) color pitch (Apart-ne x y n 0 a) in
      Keeps-trans k (
        put_row-Keeps n (put_pixel fb (point x y) color) (x +ℤ pos 1) y color
          (Keeps-HasPitch k pitch) (omega int_laws))

  pub put_block-Keeps :
      (n w : ℕ) (fb : Framebuffer) (x y : ℤ) (color : Argb)
      → HasPitch fb
      → Apart x y w n
      → Keeps q fb (put_block n w fb x y color)
  unfolding put_block
  put_block-Keeps zero w fb x y color pitch a = Keeps-refl fb
  put_block-Keeps (suc n) w fb x y color pitch a =
      let k = put_row-Keeps w fb x y color pitch (omega int_laws) in
      Keeps-trans k (
        put_block-Keeps n w (put_row w fb x y color) x (y +ℤ pos 1) color (Keeps-HasPitch k pitch)
          (omega int_laws))
