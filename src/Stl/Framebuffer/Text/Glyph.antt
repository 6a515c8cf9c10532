-- ===== src/Stl/Framebuffer/Text/Glyph.antt =====
-- Which bit of a glyph colors a pixel of a character.
use native.Mathlib.Nat.{add-mul-div_right, div-eq_of_lt, mod-add-div', mod-lt}
use native.Mathlib.Decide.{ℕ_discrete}
use electric_os.Base.{
  ℕ, zero, suc, ◌+◌, ◌-◌, ◌*◌, ◌/◌, ◌%◌, ◌≤◌, ◌<◌, ◌==◌, if◌then◌else◌, ◌≡◌, ◌≢◌, refl, arith, ap,
  ◌∙◌, sym, subst, inl, inr, ◌⊎◌, Bool-cases, ==_iff,
}
use electric_os.Base.Int.{pos, pos_part, neg_part, ◌+ℤ◌, int_laws}
use electric_os.Stl.Point.{Point, point}
use electric_os.Stl.Framebuffer.{Argb, gray, Framebuffer, is_outside, get_pixel, put_pixel}
use electric_os.Stl.Framebuffer.Rect.{SameShape}
use electric_os.Stl.Framebuffer.Pixels.{
  is_outside-SameShape, get_pixel-put_pixel_self, put_pixel-SameShape, SameShape-refl,
  SameShape-trans,
}
use electric_os.Stl.Framebuffer.Edges.Keeps.{
  Keeps, HasPitch, Keeps-refl, Keeps-trans, Keeps-HasPitch, put_pixel-Keeps,
}
use electric_os.Stl.Framebuffer.Text.{shade, put_columns, next_glyph, put_rows, put_char}

-- The row of the glyph at row `y`: `Glyph` moves on behind each row that is a multiple of the scale.
abbrev pub glyph_row : ℕ → ℕ → ℕ
glyph_row y scale = (y + scale - 1) / scale

quotient : (q r s : ℕ) → r < s → (r + q * s) / s ≡ q
quotient q r s h = add-mul-div_right r q (omega arith) ∙ omega (arith, div-eq_of_lt h)

glyph_row-next : (y s : ℕ) → 0 < s → glyph_row (y + 1) s ≡ next_glyph (glyph_row y s) y s
glyph_row-next y s h =
    let k = y / s in
    let r = y % s in
    let whole : r + k * s ≡ y = mod-add-div' y s in
    let less : r < s = mod-lt y h in
    let after : glyph_row (y + 1) s ≡ k + 1 =
      ap (λ (n : ℕ). n / s) (omega arith) ∙ quotient (k + 1) r s less in
    elim (Bool-cases (r == 0)) [
      | inl e ↦
          let none_left : r ≡ 0 = (==_iff r 0).0 e in
          let now : glyph_row y s ≡ k =
            ap (λ (n : ℕ). n / s) (omega arith) ∙ quotient k (s - 1) s (omega arith) in
          rw e (omega arith)
      | inr e ↦
          let some_left : 0 < r = ground arith in
          let now : glyph_row y s ≡ k + 1 =
            ap (λ (n : ℕ). n / s) (omega arith) ∙ quotient (k + 1) (r - 1) s (omega arith) in
          rw e (omega arith)
    ]

next-add : (g a y s : ℕ) → next_glyph (g + a) y s ≡ g + next_glyph a y s
next-add g a y s = ground arith

less : (s : ℕ) → 0 < s → 0 + s - 1 < s
less s h = omega arith

module _ (font : ℕ → ℕ) (p : Point) (scale : ℕ) (fore back : Argb) (i j : ℕ) where
  abbrev q : Point
  q = point (p.x +ℤ pos i) (p.y +ℤ pos j)

  -- Different places of a character are different points.
  place-ne : (x y : ℕ) → (x ≢ i) ⊎ (y ≢ j) → point (p.x +ℤ pos x) (p.y +ℤ pos y) ≢ q
  place-ne x y n e =
      let h : p.x +ℤ pos x ≡ p.x +ℤ pos i = ap (λ (r : Point). r.x) e in
      let v : p.y +ℤ pos y ≡ p.y +ℤ pos j = ap (λ (r : Point). r.y) e in
      omega (int_laws, ap pos_part h, ap neg_part h, ap pos_part v, ap neg_part v)

  put_columns-Keeps :
      (n : ℕ) (fb : Framebuffer) (g x y : ℕ)
      → HasPitch fb
      → (i < x) ⊎ (y ≢ j)
      → Keeps q fb (put_columns font n fb g p x y scale fore back)
  unfolding put_columns
  put_columns-Keeps zero fb g x y pitch n = Keeps-refl q fb
  put_columns-Keeps (suc k) fb g x y pitch n =
      let at = point (p.x +ℤ pos x) (p.y +ℤ pos y) in
      let kept =
        put_pixel-Keeps q fb at (shade font g x scale fore back) pitch
          (place-ne x y (omega arith)) in
      Keeps-trans q kept (
        put_columns-Keeps k (put_pixel fb at (shade font g x scale fore back)) g (x + 1) y
          (Keeps-HasPitch q kept pitch) (omega arith))

  put_columns-SameShape :
      (n : ℕ) (fb : Framebuffer) (g x y : ℕ)
      → SameShape fb (put_columns font n fb g p x y scale fore back)
  unfolding put_columns
  put_columns-SameShape zero fb g x y = SameShape-refl fb
  put_columns-SameShape (suc k) fb g x y =
      let at = point (p.x +ℤ pos x) (p.y +ℤ pos y) in
      let color = shade font g x scale fore back in
      SameShape-trans (put_pixel-SameShape fb at color)
        (put_columns-SameShape k (put_pixel fb at color) g (x + 1) y)

  put_rows-Keeps :
      (n : ℕ) (fb : Framebuffer) (g y : ℕ)
      → HasPitch fb
      → j < y
      → Keeps q fb (put_rows font n fb g p y scale fore back)
  unfolding put_rows
  put_rows-Keeps zero fb g y pitch n = Keeps-refl q fb
  put_rows-Keeps (suc k) fb g y pitch n =
      let kept = put_columns-Keeps (8 * scale) fb g 0 y pitch (inr (omega arith)) in
      Keeps-trans q kept (
        put_rows-Keeps k (put_columns font (8 * scale) fb g p 0 y scale fore back)
          (next_glyph g y scale) (y + 1) (Keeps-HasPitch q kept pitch) (omega arith))

  -- What is read at the pixel where it was given the color of a row of the glyph.
  abbrev Shaded : Framebuffer → ℕ → Framebuffer → Type 0
  Shaded fb g gb =
      get_pixel gb q ≡ (if is_outside fb q then gray 0 else shade font g i scale fore back)

  put_columns-Shaded :
      (n : ℕ) (fb : Framebuffer) (g x : ℕ)
      → HasPitch fb
      → x ≤ i
      → i < x + n
      → Shaded fb g (put_columns font n fb g p x j scale fore back)
  unfolding put_columns
  put_columns-Shaded zero fb g x pitch low high = absurd (omega arith)
  put_columns-Shaded (suc k) fb g x pitch low high = elim (ℕ_discrete x i) [
    | yes e ↦ subst (λ z. Shaded fb g (first z)) (sym e) here
    | no n ↦
        let at = point (p.x +ℤ pos x) (p.y +ℤ pos j) in
        let color = shade font g x scale fore back in
        let kept = put_pixel-Keeps q fb at color pitch (place-ne x j (inl n)) in
        put_columns-Shaded k (put_pixel fb at color) g (x + 1) (Keeps-HasPitch q kept pitch)
          (omega arith) (omega arith)
        ∙ rw (is_outside-SameShape q kept.shape) refl
  ]
    where
      first : ℕ → Framebuffer
      first z =
          put_columns font k
            (put_pixel fb (point (p.x +ℤ pos z) (p.y +ℤ pos j)) (shade font g z scale fore back)) g
            p (z + 1) j scale fore back

      here : Shaded fb g (first i)
      here =
          let color = shade font g i scale fore back in
          let s = put_pixel-SameShape fb q color in
          (put_columns-Keeps k (put_pixel fb q color) g (i + 1) j (omega (arith, s.width, s.pitch))
            (inl (omega arith))).pixel
          ∙ get_pixel-put_pixel_self fb q color

  put_rows-Shaded :
      (n : ℕ) (fb : Framebuffer) (g y : ℕ)
      → 0 < scale
      → HasPitch fb
      → i < 8 * scale
      → y ≤ j
      → j < y + n
      → Shaded fb
          (g + glyph_row j scale)
          (put_rows font n fb (g + glyph_row y scale) p y scale fore back)
  unfolding put_rows
  put_rows-Shaded zero fb g y some pitch wide low high = absurd (omega arith)
  put_rows-Shaded (suc k) fb g y some pitch wide low high = elim (ℕ_discrete y j) [
    | yes e ↦ subst (λ z. Shaded fb (g + glyph_row j scale) (first z)) (sym e) here
    | no n ↦
        let row = put_columns font (8 * scale) fb (g + glyph_row y scale) p 0 y scale fore back in
        let kept = put_columns-Keeps (8 * scale) fb (g + glyph_row y scale) 0 y pitch (inr n) in
        rw (next y) (
          put_rows-Shaded k row g (y + 1) some (Keeps-HasPitch q kept pitch) wide (omega arith)
            (omega arith)
          ∙ rw (is_outside-SameShape q kept.shape) refl)
  ]
    where
      next : (z : ℕ) → next_glyph (g + glyph_row z scale) z scale ≡ g + glyph_row (z + 1) scale
      next z =
          next-add g (glyph_row z scale) z scale
          ∙ ap (λ (n : ℕ). g + n) (sym (glyph_row-next z scale some))

      first : ℕ → Framebuffer
      first z =
          put_rows font k
            (put_columns font (8 * scale) fb (g + glyph_row z scale) p 0 z scale fore back)
            (next_glyph (g + glyph_row z scale) z scale) p (z + 1) scale fore back

      here : Shaded fb (g + glyph_row j scale) (first j)
      here =
          let row = put_columns font (8 * scale) fb (g + glyph_row j scale) p 0 j scale fore back in
          let shape = put_columns-SameShape (8 * scale) fb (g + glyph_row j scale) 0 j in
          (put_rows-Keeps k row (next_glyph (g + glyph_row j scale) j scale) (j + 1)
            (omega (arith, shape.width, shape.pitch)) (omega arith)).pixel
          ∙ put_columns-Shaded (8 * scale) fb (g + glyph_row j scale) 0 pitch (omega arith)
              (omega arith)

  -- Where the scanlines are longer than the width and the scale is not 0, each pixel of a
  -- character that `PutChar` draws inside of the buffer has the color of one bit of the glyph:
  -- column x of the bit x / scale, and row y of the glyph's row that is y / scale rounded up.
  pub put_char-pixel :
      (size : ℕ) (fb : Framebuffer) (chr : ℕ)
      → 0 < scale
      → HasPitch fb
      → i < 8 * scale
      → j < 16 * scale
      → get_pixel
          (put_char font size fb chr p scale fore back)
          (point (p.x +ℤ pos i) (p.y +ℤ pos j))
        ≡ (if is_outside fb (point (p.x +ℤ pos i) (p.y +ℤ pos j))
            then gray 0
            else shade font (chr * size + glyph_row j scale) i scale fore back)
  unfolding put_char
  put_char-pixel size fb chr some pitch wide high =
      let first : chr * size + glyph_row 0 scale ≡ chr * size =
        omega (arith, div-eq_of_lt (less scale some)) in
      ap (λ g. get_pixel (put_rows font (16 * scale) fb g p 0 scale fore back) q) (sym first)
      ∙ put_rows-Shaded (16 * scale) fb (chr * size) 0 some pitch wide (omega arith) (omega arith)
