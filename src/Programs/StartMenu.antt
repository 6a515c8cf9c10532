-- ===== src/Programs/StartMenu.antt =====
-- src/Programs/StartMenu/StartMenu.cpp: three buttons that start programs. A message leads to the
-- new state, the answer, and the texts that `STL::System` is called with.
pub mod Clicks
mod Tests
use electric_os.Base.{
  ℕ, zero, suc, ◌+◌, ◌-◌, ◌*◌, Bool, true, false, List, [], ◌∷◌, ◌++◌, if◌then◌else◌,
}
use electric_os.Base.Int.{ℤ, pos, ◌-ℤ◌}
use electric_os.Stl.Point.{Point, point}
use electric_os.Stl.Framebuffer.{gray, Framebuffer}
use electric_os.Stl.Framebuffer.Edges.{raised_width, draw_raised_rect}
use electric_os.Stl.Gui.{MouseInfo, Button, button, is_pressed, draw_button}
use electric_os.ProcessHandler.{ProcessInfo, Request, frameless_window, success, draw}

-- `StartableProcess`
pub record StartableProcess : Type 0 where
  pub button : Button
  pub name : List ℕ

-- `StartableProcesses`, and whether `CurrentAnimation` is set, with its counter.
pub record StartMenu : Type 0 where
  pub processes : List StartableProcess
  pub animated : Bool
  pub animation_counter : ℕ

abbrev pub calculator_name : List ℕ
calculator_name = b'C' ∷ b'a' ∷ b'l' ∷ b'c' ∷ b'u' ∷ b'l' ∷ b'a' ∷ b't' ∷ b'o' ∷ b'r' ∷ []

abbrev pub terminal_name : List ℕ
terminal_name = b'T' ∷ b'e' ∷ b'r' ∷ b'm' ∷ b'i' ∷ b'n' ∷ b'a' ∷ b'l' ∷ []

abbrev pub tetris_name : List ℕ
tetris_name = b'T' ∷ b'e' ∷ b't' ∷ b'r' ∷ b'i' ∷ b's' ∷ []

-- Entry `i` after `INIT`.
abbrev pub entry : ℕ → List ℕ → StartableProcess
entry i name = record {
  button =
      button (gray 200) name
        (point (pos (raised_width * 3))
          (pos (raised_width * ((i + 1) * 3) + i * (raised_width * 2 + 25))))
        (point (pos (200 - raised_width * 3))
          (pos (raised_width * ((i + 1) * 3) + (i + 1) * (raised_width * 2 + 25))));
  name = name;
}

-- `INIT`
abbrev pub start : StartMenu
start = record {
  processes = entry 0 calculator_name ∷ entry 1 terminal_name ∷ entry 2 tetris_name ∷ [];
  animated = true;
  animation_counter = 0;
}

-- The answer to `INIT`: the last button ends at 135.
abbrev pub info : ProcessInfo
info = record {
  type = frameless_window;
  depth = 1;
  width = 200;
  height = 135 + raised_width * 3;
  left = 25;
  top = 50;
}

-- `"start "` and the name
abbrev pub start_command : List ℕ → List ℕ
start_command name = (b's' ∷ b't' ∷ b'a' ∷ b'r' ∷ b't' ∷ b' ' ∷ []) ++ name

-- `MOUSE`: the entries after it, and the commands that it runs.
pub mouse : MouseInfo → List StartableProcess → List StartableProcess × List (List ℕ)
mouse m [] = ([], [])
mouse m (p ∷ ps) =
    let b = is_pressed p.button m in
    let rest = mouse m ps in
    (record p { button = b.0 } ∷ rest.0, (if b.1 then start_command p.name ∷ rest.1 else rest.1))

-- `TICK`
abbrev pub tick : StartMenu → Request
tick s = if s.animated then draw else success

module _ (font : ℕ → ℕ) (size : ℕ) where
  -- `OpenAnimation`, which ends at once.
  pub open_animation : StartMenu → Framebuffer → StartMenu × Framebuffer
  open_animation s fb = (
    record s { animated = false; animation_counter = 0 },
    draw_raised_rect fb (point (pos raised_width) (pos raised_width))
        (point (pos fb.width -ℤ pos raised_width) (pos fb.height -ℤ pos raised_width)) (gray 200),
  )

  pub draw_all : List StartableProcess → Framebuffer → Framebuffer
  draw_all [] fb = fb
  draw_all (p ∷ ps) fb = draw_all ps (draw_button font size p.button fb)

  -- `DRAW`
  pub draw_on : StartMenu → Framebuffer → StartMenu × Framebuffer × Request
  unfolding open_animation draw_all
  draw_on s fb =
      let (t, gb) = open_animation s fb in
      if s.animated
      then (record t { animation_counter = t.animation_counter + 1 }, gb, draw)
      else (s, draw_all s.processes fb, success)
