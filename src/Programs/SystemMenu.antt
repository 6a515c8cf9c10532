-- ===== src/Programs/SystemMenu.antt =====
-- src/Programs/SystemMenu/SystemMenu.cpp: three buttons that leave the desktop, restart and shut
-- down. A message leads to the new state, the answer, and the texts that `STL::System` is called
-- with.
use electric_os.Base.{ℕ, ◌+◌, ◌*◌, ◌-◌, Bool, true, false, List, [], ◌∷◌, ◌++◌, if◌then◌else◌}
use electric_os.Base.Int.{pos, ◌-ℤ◌}
use electric_os.Stl.Point.{point}
use electric_os.Stl.Framebuffer.{gray, Framebuffer}
use electric_os.Stl.Framebuffer.Edges.{raised_width, draw_raised_rect}
use electric_os.Stl.Gui.{MouseInfo, Button, button, is_toggled, draw_button}
use electric_os.ProcessHandler.{ProcessInfo, Request, frameless_window, success, draw, reset}

-- The three buttons, and whether `CurrentAnimation` is set, with its counter.
pub record SystemMenu : Type 0 where
  pub tty_button : Button
  pub restart_button : Button
  pub shut_down_button : Button
  pub animated : Bool
  pub animation_counter : ℕ

-- Button `i` after `INIT`, in a window of 200 pixels.
abbrev menu_button : ℕ → List ℕ → Button
menu_button i text =
    button (gray 200) text
      (point (pos (raised_width * 3))
        (pos (raised_width * (3 * (i + 1)) + i * (raised_width * 2 + 25))))
      (point (pos (200 - raised_width * 3))
        (pos (raised_width * (3 * (i + 1)) + (i + 1) * (raised_width * 2 + 25))))

-- `INIT`
abbrev pub start : SystemMenu
start = record {
  tty_button = menu_button 0 (b'T' ∷ b'o' ∷ b' ' ∷ b'T' ∷ b'T' ∷ b'Y' ∷ []);
  restart_button = menu_button 1 (b'R' ∷ b'e' ∷ b's' ∷ b't' ∷ b'a' ∷ b'r' ∷ b't' ∷ []);
  shut_down_button =
      menu_button 2 (b'S' ∷ b'h' ∷ b'u' ∷ b't' ∷ b' ' ∷ b'D' ∷ b'o' ∷ b'w' ∷ b'n' ∷ []);
  animated = true;
  animation_counter = 0;
}

-- The answer to `INIT`.
abbrev pub info : ProcessInfo
info = record {
  type = frameless_window;
  depth = 1;
  width = 200;
  height = raised_width * 12 + 3 * (raised_width * 2 + 25);
  left = 1920 - 200 - 25;
  top = 50;
}

abbrev pub hide_mouse : List ℕ
hide_mouse =
    b's' ∷ b'e' ∷ b't' ∷ b' ' ∷ b'd' ∷ b'r' ∷ b'a' ∷ b'w' ∷ b'm' ∷ b'o' ∷ b'u' ∷ b's' ∷ b'e' ∷ b' '
    ∷ b'0' ∷ []

abbrev pub restart_text : List ℕ
restart_text = b'r' ∷ b'e' ∷ b's' ∷ b't' ∷ b'a' ∷ b'r' ∷ b't' ∷ []

abbrev pub shutdown_text : List ℕ
shutdown_text = b's' ∷ b'h' ∷ b'u' ∷ b't' ∷ b'd' ∷ b'o' ∷ b'w' ∷ b'n' ∷ []

-- `MOUSE`
pub mouse : SystemMenu → MouseInfo → SystemMenu × Request × List (List ℕ)
mouse s m =
    let tty = is_toggled s.tty_button m in
    let restart = is_toggled s.restart_button m in
    let shut_down = is_toggled s.shut_down_button m in
    if tty.1 then (record s { tty_button = tty.0 }, reset, hide_mouse ∷ []) else (
      record s { tty_button = tty.0; restart_button = restart.0; shut_down_button = shut_down.0 },
      draw,
      (if restart.1 then restart_text ∷ [] else [])
          ++ (if shut_down.1 then shutdown_text ∷ [] else []),
    )

-- `TICK`
abbrev pub tick : SystemMenu → Request
tick s = if s.animated then draw else success

module _ (font : ℕ → ℕ) (size : ℕ) where
  -- `OpenAnimation`, which ends at once.
  pub open_animation : SystemMenu → Framebuffer → SystemMenu × Framebuffer
  open_animation s fb = (
    record s { animated = false; animation_counter = 0 },
    draw_raised_rect fb (point (pos raised_width) (pos raised_width))
        (point (pos fb.width -ℤ pos raised_width) (pos fb.height -ℤ pos raised_width)) (gray 200),
  )

  -- `DRAW`
  pub draw_on : SystemMenu → Framebuffer → SystemMenu × Framebuffer × Request
  unfolding open_animation
  draw_on s fb =
      let (t, gb) = open_animation s fb in
      let drawn =
        draw_button font size s.shut_down_button
          (draw_button font size s.restart_button (draw_button font size s.tty_button fb)) in
      if s.animated
      then (record t { animation_counter = t.animation_counter + 1 }, gb, draw)
      else (s, drawn, success)
