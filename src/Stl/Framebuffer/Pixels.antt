-- ===== src/Stl/Framebuffer/Pixels.antt =====
-- One pixel after another: `PutPixel` and `GetPixel`.
use electric_os.Base.{
  ℕ, ◌≤◌, ◌<◌, Bool, true, false, ◌==◌, if◌then◌else◌, ◌≡◌, ◌≢◌, refl, arith, ◌∙◌, inl, inr,
  Bool-cases, ==_iff,
}
use electric_os.Base.Int.{pos_part, neg_part, eq_of_parts}
use electric_os.Stl.Point.{Point, point}
use electric_os.Stl.Framebuffer.{
  Argb, gray, Framebuffer, is_outside, place, get_pixel, store, put_pixel,
}
use electric_os.Stl.Framebuffer.Rect.{SameShape, place_unique}

pub is_outside-SameShape :
    {fb gb : Framebuffer} (p : Point) → SameShape fb gb → is_outside gb p ≡ is_outside fb p
unfolding is_outside
is_outside-SameShape p s = rw (s.width, s.height) refl

pub SameShape-refl : (fb : Framebuffer) → SameShape fb fb
SameShape-refl fb = record { width = refl; height = refl; pitch = refl }

pub SameShape-trans : {fb gb hb : Framebuffer} → SameShape fb gb → SameShape gb hb → SameShape fb hb
SameShape-trans s t = record {
  width = t.width ∙ s.width;
  height = t.height ∙ s.height;
  pitch = t.pitch ∙ s.pitch;
}

pub put_pixel-SameShape :
    (fb : Framebuffer) (p : Point) (color : Argb) → SameShape fb (put_pixel fb p color)
unfolding put_pixel
put_pixel-SameShape fb p color = elim (Bool-cases (is_outside fb p)) [
  | inl e ↦ rw e (SameShape-refl fb)
  | inr e ↦ rw e (record { width = refl; height = refl; pitch = refl })
]

pub inside_parts :
    (fb : Framebuffer) (p : Point)
    → is_outside fb p ≡ false
    → (neg_part p.x ≡ 0)
      × (neg_part p.y ≡ 0)
      × (pos_part p.x ≤ fb.width)
      × (pos_part p.y ≤ fb.height)
unfolding is_outside
inside_parts fb p h = ground arith

same_point :
    (p q : Point)
    → neg_part p.x ≡ neg_part q.x
    → neg_part p.y ≡ neg_part q.y
    → pos_part p.x ≡ pos_part q.x
    → pos_part p.y ≡ pos_part q.y
    → p ≡ q
same_point p q nx ny px py =
    let h : p.x ≡ q.x = eq_of_parts p.x q.x (omega arith) in
    let v : p.y ≡ q.y = eq_of_parts p.y q.y (omega arith) in λ i. point (h i) (v i)

abbrev at : Framebuffer → Point → ℕ
at fb p = place fb (pos_part p.x) (pos_part p.y)

get_pixel-store :
    (fb : Framebuffer) (k : ℕ) (color : Argb) (q : Point)
    → get_pixel (store fb k color) q
      ≡ (if is_outside fb q then gray 0 else if at fb q == k then color else fb.base (at fb q))
unfolding get_pixel is_outside
get_pixel-store fb k color q = refl

module _ (fb : Framebuffer) (p : Point) (color : Argb) where
  put_pixel-outside : is_outside fb p ≡ true → put_pixel fb p color ≡ fb
  unfolding put_pixel
  put_pixel-outside e = rw e refl

  put_pixel-inside : is_outside fb p ≡ false → put_pixel fb p color ≡ store fb (at fb p) color
  unfolding put_pixel
  put_pixel-inside e = rw e refl

  -- A pixel that is put is read again, if it is inside.
  pub get_pixel-put_pixel_self :
      get_pixel (put_pixel fb p color) p ≡ (if is_outside fb p then gray 0 else color)
  get_pixel-put_pixel_self = elim (Bool-cases (is_outside fb p)) [
    | inl e ↦ rw (put_pixel-outside e, e) (outside e)
    | inr e ↦
        rw (put_pixel-inside e)
          (get_pixel-store fb (at fb p) color p ∙ rw ((==_iff (at fb p) (at fb p)).1 refl) refl)
  ]
    where
      outside : is_outside fb p ≡ true → get_pixel fb p ≡ gray 0
      outside e = unfold get_pixel in rw e refl

  pub get_pixel-put_pixel_ne :
      (q : Point)
      → fb.width < fb.pixels_per_scanline
      → p ≢ q
      → get_pixel (put_pixel fb p color) q ≡ get_pixel fb q
  get_pixel-put_pixel_ne q pitch n = elim (Bool-cases (is_outside fb p)) [
    | inl e ↦ rw (put_pixel-outside e) refl
    | inr e ↦
        rw (put_pixel-inside e)
          (get_pixel-store fb (at fb p) color q ∙ seen e (is_outside fb q) refl)
  ]
    where
      apart : is_outside fb p ≡ false → is_outside fb q ≡ false → (at fb q == at fb p) ≡ false
      apart e e' = elim (Bool-cases (at fb q == at fb p)) [
        | inl same ↦
            let a = inside_parts fb p e in
            let b = inside_parts fb q e' in
            let u =
              place_unique fb.pixels_per_scanline (pos_part q.x) (pos_part q.y) (pos_part p.x)
                (pos_part p.y) (omega arith) (omega arith) ((==_iff (at fb q) (at fb p)).0 same) in
            absurd (n (same_point p q (omega arith) (omega arith) (omega arith) (omega arith)))
        | inr other ↦ other
      ]

      seen :
          is_outside fb p ≡ false
          → (b : Bool) → is_outside fb q ≡ b
          → (if is_outside fb q
              then gray 0
              else if at fb q == at fb p
              then color
              else fb.base (at fb q))
            ≡ get_pixel fb q
      seen e true e' = unfold get_pixel in rw e' refl
      seen e false e' = unfold get_pixel in rw (apart e e') refl
