-- ===== src/Programs/Topbar/Tests.antt =====
-- The start button of a bar in place, where the menu gets the ID 7.
use electric_os.Base.{ℕ, List, [], ◌∷◌, none, true, false}
use electric_os.Base.Int.{pos}
use electric_os.Stl.Point.{point}
use electric_os.Stl.Gui.{MouseInfo, button, label}
use electric_os.ProcessHandler.{Handler}
use electric_os.Programs.Topbar.{Topbar, background_color}

abbrev bar : Topbar
bar = record {
  time_date_label = label [] (point (pos 860) (pos 12)) (point (pos 1060) (pos 32));
  system_button =
      button background_color [] (point (pos 1745) (pos 12)) (point (pos 1845) (pos 32));
  start_button = button background_color [] (point (pos 75) (pos 12)) (point (pos 175) (pos 32));
  animated = false;
  animation_counter = 0;
  system_menu_id = none;
  start_menu_id = none;
}

abbrev on_start : MouseInfo
on_start = record { position = point (pos 100) (pos 20); left_held = true }

abbrev seven : List ℕ → List ℕ
seven text = b'7' ∷ []

abbrev idle : Handler
idle = record {
  processes = [];
  last_messaged = none;
  focused = none;
  moving = none;
  moving_delta = point (pos 0) (pos 0);
  new_id = 7;
  redraw = false;
  buffer_swap = false;
}
