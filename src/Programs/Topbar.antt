-- ===== src/Programs/Topbar.antt =====
-- src/Programs/Topbar/Topbar.cpp: the bar with the time, which slides in, and with two buttons that
-- open and close the menus. A message leads to the new state, the answer, and the texts that
-- `STL::System` is called with; `answer` is what it answers.
pub mod Menus
mod Tests
use electric_os.Base.{
  ℕ, zero, suc, ◌+◌, ◌-◌, ◌*◌, ◌/◌, ◌%◌, Bool, true, false, ◌||◌, List, [], ◌∷◌, ◌++◌, ltb, ◌==◌,
  if◌then◌else◌, Option, none, some,
}
use electric_os.Base.Int.{ℤ, pos, ◌-ℤ◌}
use electric_os.Stl.Point.{Point, point}
use electric_os.Stl.Cstr.{to_int, to_string}
use electric_os.Stl.Framebuffer.{Argb, Framebuffer, draw_rect}
use electric_os.Stl.Framebuffer.Edges.{raised_width, draw_raised_rect}
use electric_os.Stl.Gui.{
  MouseInfo, Button, button, is_toggled, draw_button, Label, label, sunken, draw_label,
}
use electric_os.ProcessHandler.{ProcessInfo, Request, frameless_window, success, draw}

-- The globals; `none` is the ID -1.
pub record Topbar : Type 0 where
  pub time_date_label : Label
  pub system_button : Button
  pub start_button : Button
  pub animated : Bool
  pub animation_counter : ℕ
  pub system_menu_id : Option ℕ
  pub start_menu_id : Option ℕ

-- `BackgroundColor`
abbrev pub background_color : Argb
background_color = record { b = 200; g = 200; r = 200; a = 255 }

-- The answer to `INIT`, where TOPBAR_PADDING is 8 + RAISED_WIDTH * 4.
abbrev pub info : ProcessInfo
info = record {
  type = frameless_window;
  depth = 1;
  width = 1920;
  height = 16 + 8 + raised_width * 4 + raised_width;
  left = 0;
  top = 0;
}

-- The edges of the label and the buttons, in a bar of the height of `info`.
abbrev pub top_edge : ℤ
top_edge = pos (4 + raised_width * 2)

abbrev pub bottom_edge : ℕ → ℤ
bottom_edge height = pos (height - 4 - raised_width * 2)

-- `INIT`; the ID of the start menu stays.
pub start : Topbar → Topbar
start s = record {
  time_date_label =
      record (label (b'T' ∷ b'E' ∷ b'M' ∷ b'P' ∷ []) (point (pos (1920 / 2 - 100)) top_edge)
        (point (pos (1920 / 2 + 100)) (bottom_edge info.height))) { style = sunken };
  system_button =
      button background_color (b'S' ∷ b'y' ∷ b's' ∷ b't' ∷ b'e' ∷ b'm' ∷ [])
        (point (pos (1920 - 125 - 100 / 2)) top_edge)
        (point (pos (1920 - 125 + 100 / 2)) (bottom_edge info.height));
  start_button =
      button background_color (b'S' ∷ b't' ∷ b'a' ∷ b'r' ∷ b't' ∷ [])
        (point (pos (125 - 100 / 2)) top_edge)
        (point (pos (125 + 100 / 2)) (bottom_edge info.height));
  animated = true;
  animation_counter = 0;
  system_menu_id = none;
  start_menu_id = s.start_menu_id;
}

-- The label and the buttons, `offset` pixels above their places.
abbrev pub moved : Point → ℤ → Point
moved p y = point p.x y

pub slide : Topbar → ℕ → ℕ → Topbar
slide s height offset =
    let top = top_edge -ℤ pos offset in
    let bottom = pos height -ℤ pos 4 -ℤ pos (raised_width * 2) -ℤ pos offset in
    record s {
      time_date_label = record (s.time_date_label) {
        top_left = moved s.time_date_label.top_left top;
        bottom_right = moved s.time_date_label.bottom_right bottom;
      };
      system_button = record (s.system_button) {
        top_left = moved s.system_button.top_left top;
        bottom_right = moved s.system_button.bottom_right bottom;
      };
      start_button = record (s.start_button) {
        top_left = moved s.start_button.top_left top;
        bottom_right = moved s.start_button.bottom_right bottom;
      };
    }

-- `OpenAnimation`, for a buffer of at least RAISED_WIDTH rows; `desktop` is the desktop's color.
pub open_animation : Argb → Topbar → Framebuffer → Topbar × Framebuffer
unfolding slide
open_animation desktop s fb =
    let cleared =
      if s.animation_counter == 0
      then draw_rect fb (point (pos 0) (pos 0)) (point (pos fb.width) (pos fb.height)) desktop
      else fb in
    let bar =
      draw_raised_rect cleared (point (pos raised_width) (pos raised_width))
        (point (pos fb.width -ℤ pos raised_width) (pos s.animation_counter)) background_color in
    if ltb (fb.height - raised_width) s.animation_counter
    then (record s { animated = false; animation_counter = 0 }, fb)
    else (slide s fb.height (fb.height - raised_width - s.animation_counter), bar)

module _ (font : ℕ → ℕ) (size : ℕ) (desktop : Argb) where
  abbrev draw_parts : Topbar → Framebuffer → Framebuffer
  draw_parts s fb =
      draw_label font size s.time_date_label
        (draw_button font size s.start_button (draw_button font size s.system_button fb))

  -- `DRAW`
  pub draw_on : Topbar → Framebuffer → Topbar × Framebuffer × Request
  unfolding open_animation
  draw_on s fb =
      let (t, gb) = open_animation desktop s fb in
      let u = record t { animation_counter = t.animation_counter + 1 } in
      if s.animated
      then (if t.animated then (u, draw_parts u gb, success) else (u, gb, draw))
      else (s, draw_parts s fb, success)

abbrev pub time_text : List ℕ
time_text = b't' ∷ b'i' ∷ b'm' ∷ b'e' ∷ []

abbrev pub date_text : List ℕ
date_text = b'd' ∷ b'a' ∷ b't' ∷ b'e' ∷ []

abbrev pub start_systemmenu : List ℕ
start_systemmenu =
    b's' ∷ b't' ∷ b'a' ∷ b'r' ∷ b't' ∷ b' ' ∷ b's' ∷ b'y' ∷ b's' ∷ b't' ∷ b'e' ∷ b'm' ∷ b'm' ∷ b'e'
    ∷ b'n' ∷ b'u' ∷ []

abbrev pub start_startmenu : List ℕ
start_startmenu =
    b's' ∷ b't' ∷ b'a' ∷ b'r' ∷ b't' ∷ b' ' ∷ b's' ∷ b't' ∷ b'a' ∷ b'r' ∷ b't' ∷ b'm' ∷ b'e' ∷ b'n'
    ∷ b'u' ∷ []

abbrev pub text_of : Option (List ℕ) → List ℕ
text_of none = []
text_of (some s) = s

-- `"kill "` and the ID
abbrev pub kill_text : ℕ → List ℕ
kill_text id = (b'k' ∷ b'i' ∷ b'l' ∷ b'l' ∷ b' ' ∷ []) ++ text_of (to_string id)

module _ (answer : List ℕ → List ℕ) where
  -- A menu is opened or closed: its new ID, and the command.
  abbrev pub toggle_menu : List ℕ → Option ℕ → Option ℕ × List ℕ
  toggle_menu start_text none = (some (to_int (answer start_text)), start_text)
  toggle_menu start_text (some id) = (none, kill_text id)

  abbrev pub toggle_if : Bool → List ℕ → Option ℕ → Option ℕ × List (List ℕ)
  toggle_if false start_text id = (id, [])
  toggle_if true start_text id = let r = toggle_menu start_text id in (r.0, r.1 ∷ [])

  -- `MOUSE`
  pub mouse : Topbar → MouseInfo → Topbar × Request × List (List ℕ)
  mouse s m =
      let system = is_toggled s.system_button m in
      let starts = is_toggled s.start_button m in
      let first = toggle_if system.1 start_systemmenu s.system_menu_id in
      let second = toggle_if starts.1 start_startmenu s.start_menu_id in
      (
        record s {
          system_button = system.0;
          start_button = starts.0;
          system_menu_id = first.0;
          start_menu_id = second.0;
        },
        draw,
        first.1 ++ second.1,
      )

  -- `TICK`
  pub tick : Topbar → ℕ → Topbar × Request × List (List ℕ)
  tick s now =
      if s.animated || (now % 100 == 0)
      then (
        record s {
          time_date_label = record (s.time_date_label) {
            text = answer time_text ++ (b' ' ∷ []) ++ answer date_text;
          };
        },
        draw,
        time_text ∷ date_text ∷ [],
      )
      else (s, success, [])
