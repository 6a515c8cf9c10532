-- ===== src/Programs/Terminal/Scroll.antt =====
-- The pixels after the terminal has scrolled.
use electric_os.Base.{
  ℕ, zero, suc, ◌+◌, ◌-◌, ◌*◌, ◌^◌, ◌≤◌, ◌<◌, Bool, true, false, ◌&&◌, ltb, leb, ◌==◌,
  if◌then◌else◌, ◌≡◌, refl, arith, ap, ◌∙◌, sym, some, sub64,
}
use electric_os.Stl.Framebuffer.{Argb, gray, Framebuffer, place, store, draw_rows}
use electric_os.Stl.Framebuffer.Rect.{SameShape, place_unique, draw_rows-base, draw_rows-SameShape}
use electric_os.Stl.Framebuffer.Pixels.{SameShape-refl, SameShape-trans}
use electric_os.Programs.Terminal.{newline_offset, copy_row, copy_rows, scroll, sub32}

copy_row-SameShape :
    (n : ℕ) (fb : Framebuffer) (x y amount : ℕ) → SameShape fb (copy_row n fb x y amount)
unfolding copy_row
copy_row-SameShape zero fb x y amount = SameShape-refl fb
copy_row-SameShape (suc n) fb x y amount =
    let color = fb.base (place fb x (y + amount)) in
    let s = copy_row-SameShape n (store fb (place fb x y) color) (x + 1) y amount in
    record { width = s.width; height = s.height; pitch = s.pitch }

copy_rows-SameShape :
    (n w : ℕ) (fb : Framebuffer) (y amount : ℕ) → SameShape fb (copy_rows n w fb y amount)
unfolding copy_rows
copy_rows-SameShape zero w fb y amount = SameShape-refl fb
copy_rows-SameShape (suc n) w fb y amount =
    SameShape-trans (copy_row-SameShape w fb newline_offset y amount)
      (copy_rows-SameShape n w (copy_row w fb newline_offset y amount) (y + 1) amount)

same_place :
    (pitch x y x' y' : ℕ)
    → x < pitch
    → x' < pitch
    → (x + y * pitch == x' + y' * pitch) ≡ ((x == x') && (y == y'))
same_place pitch x y x' y' h h' = ground (arith, place_unique pitch x y x' y' h h')

module _ (amount : ℕ) (some_rows : 0 < amount) where
  row_step :
      (n x y x' y' : ℕ) (copied kept first : Argb)
      → (x ≡ x' → y ≡ y' → first ≡ copied)
      → (if leb (x + 1) x' && ltb x' (x + 1 + n) && (y == y')
          then (if (x' == x) && (y' + amount == y) then first else copied)
          else (if (x' == x) && (y' == y) then first else kept))
        ≡ (if leb x x' && ltb x' (x + suc n) && (y == y') then copied else kept)
  row_step n x y x' y' copied kept first same = ground (arith, same)

  -- The color of a place of row `y'`, when its columns from `x` on, `n` of them, are copied.
  copy_row-base :
      (n : ℕ) (fb : Framebuffer) (x y x' y' : ℕ)
      → x + n ≤ fb.pixels_per_scanline
      → x' < fb.pixels_per_scanline
      → (copy_row n fb x y amount).base (place fb x' y') ≡ (
          if leb x x' && ltb x' (x + n) && (y == y')
          then fb.base (place fb x' (y' + amount))
          else fb.base (place fb x' y'))
  unfolding copy_row
  copy_row-base zero fb x y x' y' fits there = ground arith
  copy_row-base (suc n) fb x y x' y' fits there =
      let gb = store fb (place fb x y) (fb.base (place fb x (y + amount))) in
      let rest = copy_row-base n gb (x + 1) y x' y' (omega arith) there in
      let here = same_place fb.pixels_per_scanline x' y' x y there (omega arith) in
      let below = same_place fb.pixels_per_scanline x' (y' + amount) x y there (omega arith) in
      let source : x ≡ x'
          → y ≡ y'
          → fb.base (place fb x (y + amount)) ≡ fb.base (place fb x' (y' + amount)) =
        λ e d i. fb.base (place fb (e i) (d i + amount)) in
      rest
      ∙ rw (here, below)
          (row_step n x y x' y' (fb.base (place fb x' (y' + amount))) (fb.base (place fb x' y'))
            (fb.base (place fb x (y + amount))) source)

  rows_step :
      (b c : Bool) (n y y' : ℕ) (got below here far copied kept : Argb)
      → got ≡ (if b && c && leb (y + 1) y' && ltb y' (y + 1 + n) then below else here)
      → below ≡ (if b && c && (y == y' + amount) then far else copied)
      → here ≡ (if b && c && (y == y') then copied else kept)
      → got ≡ (if b && c && leb y y' && ltb y' (y + suc n) then copied else kept)
  rows_step true true n y y' got below here far copied kept e f g = e ∙ rw (f, g) ground arith
  rows_step true false n y y' got below here far copied kept e f g = e ∙ g
  rows_step false c n y y' got below here far copied kept e f g = e ∙ g

  copy_rows-base :
      (n w : ℕ) (fb : Framebuffer) (y x' y' : ℕ)
      → newline_offset + w ≤ fb.pixels_per_scanline
      → x' < fb.pixels_per_scanline
      → (copy_rows n w fb y amount).base (place fb x' y') ≡ (
          if leb newline_offset x' && ltb x' (newline_offset + w) && leb y y' && ltb y' (y + n)
          then fb.base (place fb x' (y' + amount))
          else fb.base (place fb x' y'))
  unfolding copy_rows
  copy_rows-base zero w fb y x' y' fits there = ground arith
  copy_rows-base (suc n) w fb y x' y' fits there =
      let row = copy_row w fb newline_offset y amount in
      let pitch = (copy_row-SameShape w fb newline_offset y amount).pitch in
      let same : (k : ℕ) → place row x' k ≡ place fb x' k = λ k. ap (λ p. x' + k * p) pitch in
      let rest = copy_rows-base n w row (y + 1) x' y' (omega arith) (omega arith) in
      let here = copy_row-base w fb newline_offset y x' y' fits there in
      let below = copy_row-base w fb newline_offset y x' (y' + amount) fits there in
      rows_step (leb newline_offset x') (ltb x' (newline_offset + w)) n y y' _ _ _ _ _ _
        (ap (copy_rows n w row (y + 1) amount).base (sym (same y')) ∙ rest)
        (ap row.base (same (y' + amount)) ∙ below) (ap row.base (same y') ∙ here)

-- What the pixel of column `x'` and row `y'` shows when the rows from `offset` on have moved up.
abbrev pub moved_up : Framebuffer → ℕ → ℕ → ℕ → Argb
moved_up fb amount x' y' =
    if leb newline_offset x'
      && ltb x' (fb.width - newline_offset)
      && leb newline_offset y'
      && ltb y' fb.height
    then (if ltb y' (fb.height - newline_offset - amount)
        then fb.base (place fb x' (y' + amount))
        else gray 0)
    else fb.base (place fb x' y')

scroll_step :
    (w h amount x' y' : ℕ) (got old copied kept : Argb)
    → 2 * newline_offset + amount ≤ h
    → 2 * newline_offset ≤ w
    → got ≡ (
        if leb newline_offset x'
          && ltb x' (newline_offset + (w - newline_offset - newline_offset))
          && leb (h - newline_offset - amount) y'
          && ltb y' (h - newline_offset - amount + (h - (h - newline_offset - amount)))
        then gray 0
        else old)
    → old ≡ (
        if leb newline_offset x'
          && ltb x' (newline_offset + (w - newline_offset - newline_offset))
          && leb newline_offset y'
          && ltb y' (newline_offset + (h - newline_offset - amount - newline_offset))
        then copied
        else kept)
    → got ≡ (
        if leb newline_offset x' && ltb x' (w - newline_offset) && leb newline_offset y' && ltb y' h
        then (if ltb y' (h - newline_offset - amount) then copied else gray 0)
        else kept)
scroll_step w h amount x' y' got old copied kept room wide e f = e ∙ rw f ground arith

pub scroll_lem :
    (fb : Framebuffer) (amount x' y' : ℕ)
    → 0 < amount
    → 2 * newline_offset + amount ≤ fb.height
    → 2 * newline_offset ≤ fb.width
    → fb.height < 2 ^ 32
    → fb.width < 2 ^ 32
    → fb.width ≤ fb.pixels_per_scanline
    → x' < fb.pixels_per_scanline
    → (gb : Framebuffer) × (scroll fb amount ≡ some gb)
      × SameShape fb gb
      × (gb.base (place fb x' y') ≡ moved_up fb amount x' y')
unfolding scroll
scroll_lem fb amount x' y' some_rows room wide h32 w32 fits there =
    let bound : sub64 (sub32 fb.height newline_offset) amount
        ≡ fb.height - newline_offset - amount =
      omega arith in
    let w : sub32 fb.width newline_offset - newline_offset
        ≡ fb.width - newline_offset - newline_offset =
      omega arith in
    let ends : leb (2 ^ 32) (fb.height - newline_offset - amount) ≡ false = ground arith in
    let columns = fb.width - newline_offset - newline_offset in
    let rows = fb.height - newline_offset - amount in
    let gb = copy_rows (rows - newline_offset) columns fb newline_offset amount in
    let hb = draw_rows (fb.height - rows) columns gb newline_offset rows (gray 0) in
    let shape = copy_rows-SameShape (rows - newline_offset) columns fb newline_offset amount in
    let same : place gb x' y' ≡ place fb x' y' = ap (λ p. x' + y' * p) shape.pitch in
    let pitch = shape.pitch in
    let black =
      draw_rows-base (gray 0) x' y' (fb.height - rows) columns gb newline_offset rows (omega arith)
        (omega arith) in
    let copied =
      copy_rows-base amount some_rows (rows - newline_offset) columns fb newline_offset x' y'
        (omega arith) there in
    rw (bound, w, ends)
      (
        hb,
        refl,
        SameShape-trans shape
            (draw_rows-SameShape (fb.height - rows) columns gb newline_offset rows (gray 0)),
        scroll_step fb.width fb.height amount x' y' _ _ _ _ room wide
            (ap hb.base (sym same) ∙ black) (ap gb.base same ∙ copied),
      )
