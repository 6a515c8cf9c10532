-- ===== src/Stl/Framebuffer/Text.antt =====
-- Text on a frame buffer: `PutChar` and `Print` of src/STL/Graphics/Framebuffer.cpp. `font` is the
-- font's `glyphBuffer`, byte by byte, `size` its `charsize`. Characters are numbers below 128.
pub mod Glyph
mod Tests
use electric_os.Base.{
  ℕ, zero, suc, ◌+◌, ◌-◌, ◌*◌, ◌/◌, ◌%◌, ◌^◌, Bool, List, [], ◌∷◌, length, get_or, ltb, ◌==◌, ◌||◌,
  if◌then◌else◌,
}
use electric_os.Base.Bits.{bit_at}
use electric_os.Base.Int.{ℤ, pos, ◌+ℤ◌, ltb_ℤ}
use electric_os.Stl.Point.{Point, point}
use electric_os.Stl.Framebuffer.{Argb, Framebuffer, put_pixel}

-- `if (y % Scale == 0) Glyph++;`
abbrev pub next_glyph : ℕ → ℕ → ℕ → ℕ
next_glyph g y scale = if y % scale == 0 then g + 1 else g

-- `(a - '0') * 100 + (b - '0') * 10 + (c - '0')` as a byte.
abbrev pub three_digits : List ℕ → ℕ → ℕ
three_digits cs k =
    (get_or cs k 0 * 100 + get_or cs (k + 1) 0 * 10 + get_or cs (k + 2) 0 + 48) % 256

-- The color of an escape sequence, of the nine characters behind its letter.
pub escape_color : List ℕ → Argb
escape_color cs = record {
  b = three_digits cs 7;
  g = three_digits cs 4;
  r = three_digits cs 1;
  a = 255;
}

abbrev pub drop : ℕ → List ℕ → List ℕ
drop zero xs = xs
drop (suc n) [] = []
drop (suc n) (x ∷ xs) = drop n xs

-- `Pos.X + NewLineOffset + 16 * Scale > this->Width`, where the sum is unsigned.
abbrev pub breaks_line : ℕ → Point → ℕ → ℕ → Bool
breaks_line width p scale offset =
    let sum = p.x +ℤ pos (offset + 16 * scale) in ltb_ℤ sum (pos 0) || ltb_ℤ (pos width) sum

-- Where a character is drawn.
abbrev pub line_start : ℕ → Point → ℕ → ℕ → Point
line_start width p scale offset =
    if breaks_line width p scale offset then point (pos offset) (p.y +ℤ pos (16 * scale)) else p

module _ (font : ℕ → ℕ) where
  -- The color of column `x`: `(*Glyph & (0b10000000 >> x / Scale)) > 0`
  abbrev pub shade : ℕ → ℕ → ℕ → Argb → Argb → Argb
  shade g x scale fore back = if bit_at (font g) (7 - x / scale) then fore else back

  -- The inner loop of `PutChar`: `n` pixels from column `x` on.
  pub put_columns : ℕ → Framebuffer → ℕ → Point → ℕ → ℕ → ℕ → Argb → Argb → Framebuffer
  put_columns zero fb g p x y scale fore back = fb
  put_columns (suc n) fb g p x y scale fore back =
      put_columns n (put_pixel fb (point (p.x +ℤ pos x) (p.y +ℤ pos y)) (shade g x scale fore back))
        g p (x + 1) y scale fore back

  -- The outer loop: `n` rows from row `y` on.
  pub put_rows : ℕ → Framebuffer → ℕ → Point → ℕ → ℕ → Argb → Argb → Framebuffer
  put_rows zero fb g p y scale fore back = fb
  put_rows (suc n) fb g p y scale fore back =
      put_rows n (put_columns (8 * scale) fb g p 0 y scale fore back) (next_glyph g y scale) p
        (y + 1) scale fore back

  -- `PutChar`
  pub put_char : ℕ → Framebuffer → ℕ → Point → ℕ → Argb → Argb → Framebuffer
  unfolding put_columns put_rows
  put_char size fb chr p scale fore back = put_rows (16 * scale) fb (chr * size) p 0 scale fore back

  -- `Print`, with the cursor that it leaves in `Pos`; the fuel is the number of characters.
  pub print : ℕ → ℕ → Framebuffer → List ℕ → Point → ℕ → Argb → Argb → ℕ → Framebuffer × Point
  unfolding put_char escape_color
  print size zero fb cs p scale fore back offset = (fb, p)
  print size (suc fuel) fb [] p scale fore back offset = (fb, p)
  print size (suc fuel) fb (c ∷ cs) p scale fore back offset =
      let down = point p.x (p.y +ℤ pos (16 * scale)) in
      let line = print size fuel fb cs down scale fore back offset in
      let return = print size fuel fb cs (point (pos offset) p.y) scale fore back offset in
      let letter = get_or cs 0 0 in
      let fore' = if letter == b'F' then escape_color cs else fore in
      let back' = if letter == b'B' then escape_color cs else back in
      let escape = print size fuel fb (drop 10 cs) p scale fore' back' offset in
      let at = line_start fb.width p scale offset in
      let next = point (at.x +ℤ pos (8 * scale)) at.y in
      let drawn = put_char size fb c at scale fore back in
      let plain = print size fuel drawn cs next scale fore back offset in
      if c == 10
      then line
      else if c == 13
      then return
      else if c == 27
      then (if ltb (length cs) 9 then (fb, p) else escape)
      else plain
