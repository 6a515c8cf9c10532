-- ===== src/Programs/Tty.antt =====
-- src/Programs/tty/tty.cpp: the globals and every message, with where `Framebuffer::Print` leaves the
-- cursor. The text of the welcome is an argument, and a command is its characters up to the
-- terminator. `system` is an argument, too: what a command does to the globals, which CLEAR and KILL
-- empty while it runs, and its answer.
pub mod Lines
mod Tests
use electric_os.Base.{
  ℕ, zero, suc, ◌+◌, ◌-◌, ◌*◌, Bool, true, false, not, List, [], ◌∷◌, ◌++◌, length, ltb, ◌==◌,
  if◌then◌else◌, u64,
}
use electric_os.Base.Int.{ℤ, pos, ◌+ℤ◌, ◌-ℤ◌, ltb_ℤ}
use electric_os.Stl.Point.{Point, point}
use electric_os.Stl.Cstr.{line_amount}
use electric_os.Input.KeyBoard.{enter, backspace}
use electric_os.ProcessHandler.{Request, success, draw}

-- The globals.
pub record Tty : Type 0 where
  pub prev_tick : ℕ
  pub command : List ℕ
  pub text : List ℕ
  pub cursor : Point
  pub redraw_text : Bool
  pub draw_underline : Bool
  pub clear_command : Bool

-- `STL::PROM`; the frame buffer of DRAW is its width and height.
pub data Message : Type 0 where
  init : Message
  tick : ℕ → Message
  draw_on : ℕ → ℕ → Message
  keypress : ℕ → Message
  clear : Message
  kill : Message

abbrev pub newline : List ℕ
newline = 10 ∷ 13 ∷ []

abbrev pub prompt : List ℕ
prompt = 10 ∷ 13 ∷ b'>' ∷ b' ' ∷ []

abbrev pub drop : ℕ → List ℕ → List ℕ
drop zero xs = xs
drop (suc n) [] = []
drop (suc n) (x ∷ xs) = drop n xs

-- A character that is none of the three that `Print` treats on their own, at scale 1.
abbrev pub advance : ℕ → Point → Point
advance width p =
    if ltb_ℤ (pos width) (p.x +ℤ pos 16)
    then point (pos 8) (p.y +ℤ pos 16)
    else point (p.x +ℤ pos 8) p.y

-- The cursor after `Print`: the escape sequences have ten characters behind the first.
pub print_cursor : ℕ → List ℕ → Point → ℕ → Point
print_cursor zero cs p width = p
print_cursor (suc fuel) [] p width = p
print_cursor (suc fuel) (c ∷ cs) p width =
    let line = print_cursor fuel cs (point p.x (p.y +ℤ pos 16)) width in
    let start = print_cursor fuel cs (point (pos 0) p.y) width in
    let escape = print_cursor fuel (drop 10 cs) p width in
    let plain = print_cursor fuel cs (advance width p) width in
    if c == 10
    then line
    else if c == 13
    then start
    else if c == 27
    then (if ltb (length cs) 9 then p else escape)
    else plain

-- Where the cursor goes when the text needs more lines than are left.
abbrev pub scrolled : Point → ℕ → ℕ → Point
scrolled p lines height =
    let y = p.y -ℤ (p.y +ℤ pos (lines * 16) -ℤ pos height) in
    if ltb_ℤ (pos height) (p.y +ℤ pos (lines * 16))
    then point p.x (if ltb_ℤ y (pos 0) then pos 0 else y)
    else p

-- `DRAW`
pub draw_text : Tty → ℕ → ℕ → Tty
draw_text t width height =
    let t1 =
      if t.redraw_text
      then record t {
        cursor =
            print_cursor (length t.text) t.text (scrolled t.cursor (line_amount t.text 0) height)
              width;
        text = [];
        command = [];
        redraw_text = false;
      }
      else t in
    record t1 { clear_command = false }

-- The command without its last character.
pub shorter : List ℕ → List ℕ
shorter [] = []
shorter (c ∷ []) = []
shorter (c ∷ d ∷ cs) = c ∷ shorter (d ∷ cs)

-- `KEYPRESS`: the key 0 only writes the terminator again.
pub on_key : (List ℕ → Tty → Tty × List ℕ) → Tty → ℕ → Tty
on_key system t key =
    let r = system t.command (record t { text = t.text ++ t.command ++ newline }) in
    if key == enter
    then record (r.0) { text = r.0.text ++ r.1 ++ prompt; redraw_text = true }
    else if key == backspace
    then (if length t.command == 0
        then t
        else record t { command = shorter t.command; clear_command = true })
    else if ltb (length t.command) 63
    then (if key == 0 then t else record t { command = t.command ++ (key ∷ []) })
    else t

-- `Procedure`, with its answer.
pub procedure : (List ℕ → Tty → Tty × List ℕ) → List ℕ → Tty → Message → Tty × Request
procedure system welcome t init = (
  record t { text = welcome; command = []; cursor = point (pos 0) (pos 0); redraw_text = true },
  success,
)
procedure system welcome t (tick now) =
    if ltb (u64 (t.prev_tick + 50)) now
    then (record t { draw_underline = not t.draw_underline; prev_tick = now }, draw)
    else (t, success)
procedure system welcome t (draw_on width height) = (draw_text t width height, success)
procedure system welcome t (keypress key) = (on_key system t key, draw)
procedure system welcome t clear =
    (record t { text = []; command = []; cursor = point (pos 0) (pos 0) }, success)
procedure system welcome t kill = (record t { text = []; command = [] }, success)
