-- ===== src/Programs/Terminal.antt =====
-- src/Programs/Terminal/Terminal.cpp: the terminal in a window, with all that it draws. The text of the
-- welcome is an argument, and a command is its characters up to the terminator. `system` is an
-- argument, too: what a command does to the globals, and its answer. The cursor never
-- is above the buffer, so that its row is a natural number where the source converts it.
pub mod Scroll
pub mod Room
mod Tests
use electric_os.Base.{
  ℕ, zero, suc, ◌+◌, ◌-◌, ◌*◌, ◌%◌, ◌^◌, Bool, true, false, not, List, [], ◌∷◌, ◌++◌, length, leb,
  ltb, ◌==◌, if◌then◌else◌, u64, sub64, Option, none, some, ◌>>=◌,
}
use electric_os.Base.Int.{ℤ, pos, pos_part, ◌+ℤ◌, ◌-ℤ◌}
use electric_os.Stl.Point.{Point, point}
use electric_os.Stl.Cstr.{line_amount}
use electric_os.Stl.Framebuffer.{gray, Framebuffer, place, store, draw_rows, draw_rect}
use electric_os.Stl.Framebuffer.Edges.{raised_width, draw_sunken_rect_edge}
use electric_os.Stl.Framebuffer.Text.{put_char, print}
use electric_os.Input.KeyBoard.{enter, backspace}
use electric_os.ProcessHandler.{ProcessInfo, Request, windowed, success, draw}
use electric_os.Programs.Tty.{newline, prompt, shorter}

-- The globals; `ClearCommand` is never used.
pub record Terminal : Type 0 where
  pub prev_tick : ℕ
  pub command : List ℕ
  pub text : List ℕ
  pub cursor : Point
  pub redraw_text : Bool
  pub draw_underline : Bool

-- `NEWLINE_OFFSET`
abbrev pub newline_offset : ℕ
newline_offset = raised_width * 3

-- The answer to `INIT`.
abbrev pub info : ProcessInfo
info = record {
  type = windowed;
  depth = 1;
  width = 1000 + newline_offset * 2;
  height = 650;
  left = 360;
  top = 200;
}

-- `INIT`
pub start : List ℕ → Terminal → Terminal
start welcome s = record s {
  text = welcome;
  command = [];
  cursor = point (pos 0) (pos 0);
  redraw_text = true;
}

-- `TICK`
pub tick : Terminal → ℕ → Terminal × Request
tick s now =
    if ltb (u64 (s.prev_tick + 50)) now
    then (record s { draw_underline = not s.draw_underline; prev_tick = now }, draw)
    else (s, success)

-- A difference of two `uint32_t`.
abbrev pub sub32 : ℕ → ℕ → ℕ
sub32 a b = (a + (2 ^ 32 - b % 2 ^ 32)) % 2 ^ 32

-- The inner loop of the scrolling: `n` pixels from `x` on.
pub copy_row : ℕ → Framebuffer → ℕ → ℕ → ℕ → Framebuffer
copy_row zero fb x y amount = fb
copy_row (suc n) fb x y amount =
    copy_row n (store fb (place fb x y) (fb.base (place fb x (y + amount)))) (x + 1) y amount

-- The outer loop: `n` rows from `y` on, `w` pixels each.
pub copy_rows : ℕ → ℕ → Framebuffer → ℕ → ℕ → Framebuffer
unfolding copy_row
copy_rows zero w fb y amount = fb
copy_rows (suc n) w fb y amount =
    copy_rows n w (copy_row w fb newline_offset y amount) (y + 1) amount

-- The two loops of the scrolling; `none` where the first one never ends, since its counter has 32
-- bits.
pub scroll : Framebuffer → ℕ → Option Framebuffer
unfolding copy_rows
scroll fb amount =
    let bound = sub64 (sub32 fb.height newline_offset) amount in
    let w = sub32 fb.width newline_offset - newline_offset in
    if leb (2 ^ 32) bound
    then none
    else some (
        draw_rows (fb.height - bound) w
          (copy_rows (bound - newline_offset) w fb newline_offset amount) newline_offset bound
          (gray 0))

-- The rows that the text needs.
abbrev pub needed : Terminal → ℕ
needed s = pos_part s.cursor.y + line_amount s.text 0 * 16 + newline_offset * 2

-- `//Scroll up`
pub make_room : Terminal → Framebuffer → Option (Terminal × Framebuffer)
unfolding scroll
make_room s fb =
    let amount = needed s - fb.height in
    let up = record s { cursor = point s.cursor.x (pos (pos_part s.cursor.y - amount)) } in
    if ltb fb.height (needed s) then (do gb ← scroll fb amount; some (up, gb)) else some (s, fb)

module _ (font : ℕ → ℕ) (size : ℕ) where
  -- `//Clear command`: `n` characters from `i` on.
  pub clear_command : ℕ → Framebuffer → Point → ℕ → Framebuffer
  clear_command zero fb p i = fb
  clear_command (suc n) fb p i =
      clear_command n
        (put_char font size fb b' ' (point (p.x +ℤ pos (8 * i)) p.y) 1 (gray 255) (gray 0)) p
        (i + 1)

  -- `//Draw Edge`
  pub draw_edge : Framebuffer → Framebuffer
  draw_edge fb =
      let w = pos fb.width in
      let h = pos fb.height in
      let edge = pos (raised_width * 2) in
      let above = draw_rect fb (point (pos 0) (pos 0)) (point w edge) (gray 200) in
      let left = draw_rect above (point (pos 0) (pos 0)) (point edge h) (gray 200) in
      let right = draw_rect left (point (w -ℤ edge) (pos 0)) (point w h) (gray 200) in
      let below = draw_rect right (point (pos 0) (h -ℤ edge)) (point w h) (gray 200) in
      draw_sunken_rect_edge below (point edge edge) (point (w -ℤ edge) (h -ℤ edge))

  -- `if (RedrawText)`
  pub draw_text : Terminal → Framebuffer → Terminal × Framebuffer
  unfolding draw_edge
  draw_text s fb =
      let printed =
        print font size (length s.text) fb s.text s.cursor 1 (gray 255) (gray 0) newline_offset in
      if s.redraw_text
      then (
        record s { cursor = printed.1; text = []; command = []; redraw_text = false },
        draw_edge printed.0,
      )
      else (s, fb)

  -- The command and the underline.
  pub draw_command : Terminal → Framebuffer → Framebuffer
  draw_command s fb =
      let printed =
        print font size (length s.command) fb s.command s.cursor 1 (gray 255) (gray 0)
          newline_offset in
      put_char font size printed.0 (if s.draw_underline then b'_' else b' ') printed.1 1 (gray 255)
        (gray 0)

  -- `DRAW`
  pub draw_on : Terminal → Framebuffer → Option (Terminal × Framebuffer)
  unfolding clear_command make_room draw_text draw_command
  draw_on s fb = do
    (t, gb) ← make_room s (clear_command (length s.command + 2) fb s.cursor 0)
    let r = draw_text t gb
    some (r.0, draw_command r.0 r.1)

-- `KEYPRESS`, which answers DRAW: the key 0 only writes the terminator again.
pub on_key : (List ℕ → Terminal → Terminal × List ℕ) → Terminal → ℕ → Terminal
on_key system s key =
    let r = system s.command (record s { text = s.text ++ s.command ++ newline }) in
    if key == enter
    then record (r.0) { text = r.0.text ++ r.1 ++ prompt; redraw_text = true }
    else if key == backspace
    then (if length s.command == 0 then s else record s { command = shorter s.command })
    else if ltb (length s.command) 63
    then (if key == 0 then s else record s { command = s.command ++ (key ∷ []) })
    else s

-- `CLEAR`
abbrev pub clear : Terminal → Terminal
clear s = record s { text = []; command = []; cursor = point (pos 0) (pos 0) }

-- `KILL`
abbrev pub kill : Terminal → Terminal
kill s = record s { text = []; command = [] }
