-- ===== src/Programs/Terminal/Room.antt =====
-- The terminal makes room for the text that it is about to print.
use electric_os.Base.{
  ℕ, ◌+◌, ◌-◌, ◌*◌, ◌^◌, ◌≤◌, ◌<◌, ltb, if◌then◌else◌, ◌≡◌, refl, arith, some, Bool-cases, inl, inr,
}
use electric_os.Base.Int.{pos, pos_part}
use electric_os.Stl.Point.{point}
use electric_os.Stl.Cstr.{line_amount}
use electric_os.Stl.Framebuffer.{Framebuffer, place}
use electric_os.Programs.Terminal.{Terminal, newline_offset, needed, make_room}
use electric_os.Programs.Terminal.Scroll.{moved_up, scroll_lem}

-- The window of the terminal, with room for the text and for what is scrolled.
pub record IsWindow (s : Terminal) (fb : Framebuffer) : Type 0 where
  pub text_fits : line_amount s.text 0 * 16 + newline_offset * 2 ≤ fb.height
  pub scrolls : needed s + 2 * newline_offset ≤ 2 * fb.height
  pub wide : 2 * newline_offset ≤ fb.width
  pub height_bound : fb.height < 2 ^ 32
  pub width_bound : fb.width < 2 ^ 32
  pub pitch : fb.width ≤ fb.pixels_per_scanline

-- In a window with sizes of 32 bits, as wide as its edges at least, and scanlines as long as its
-- width at least, where the text's lines fit between the edges and the rows to scroll are at
-- most the rows between the edges: making room ends, the text then fits below the cursor, which
-- keeps its column, and the text stays. If it did not fit before, each pixel between the left
-- and the right edge and below the upper one shows the pixel as many rows below it as are
-- scrolled, or, in the last rows, black; every other pixel is as before.
pub make_room_lem :
    (s : Terminal) (fb : Framebuffer) (x y : ℕ)
    → IsWindow s fb
    → x < fb.pixels_per_scanline
    → (t : Terminal) × (gb : Framebuffer) × (make_room s fb ≡ some (t, gb))
      × (needed t ≤ fb.height)
      × (t.text ≡ s.text)
      × (t.cursor.x ≡ s.cursor.x)
      × (gb.base (place fb x y) ≡ (
          if ltb fb.height (needed s)
          then moved_up fb (needed s - fb.height) x y
          else fb.base (place fb x y)))
unfolding make_room
make_room_lem s fb x y w there = elim (Bool-cases (ltb fb.height (needed s))) [
  | inl e ↦
      let (gb, scrolled, shape, color) =
        scroll_lem fb (needed s - fb.height) x y (ground arith) (let r = w.scrolls in omega arith)
          w.wide w.height_bound w.width_bound w.pitch there in
      let t : Terminal = record s {
        cursor = point s.cursor.x (pos (pos_part s.cursor.y - (needed s - fb.height)));
      } in
      let fit : needed t ≤ fb.height = let f = w.text_fits in omega arith in
      (t, gb, rw (e, scrolled) refl, fit, refl, refl, rw e color)
  | inr e ↦ (s, fb, rw e refl, ground arith, refl, refl, rw e refl)
]
