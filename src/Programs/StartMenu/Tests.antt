-- ===== src/Programs/StartMenu/Tests.antt =====
-- The mouse is pressed over the second entry, and moves on it.
use electric_os.Base.{◌≡◌, refl, [], ◌∷◌, true, some}
use electric_os.Base.Int.{pos}
use electric_os.Stl.Point.{point}
use electric_os.Stl.Gui.{MouseInfo, is_held}
use electric_os.System.{system, command_start_program, command_start, terminal}
use electric_os.Programs.StartMenu.{start, start_command, terminal_name}
use electric_os.Programs.StartMenu.Clicks.{mouse_all, second, AllHeld, mouse_all-start}

abbrev on_terminal : MouseInfo
on_terminal = record { position = point (pos 100) (pos 70); left_held = true }

abbrev moved_on : MouseInfo
moved_on = record { position = point (pos 101) (pos 71); left_held = true }

both_held : AllHeld second (on_terminal ∷ moved_on ∷ [])
unfolding is_held
both_held = (refl, (refl, tt))

mouse_all-start_example :
    ((mouse_all (on_terminal ∷ moved_on ∷ []) start.processes).1 ≡ start_command terminal_name ∷ [])
    × (system (start_command terminal_name) ≡ some command_start)
    × (command_start_program (start_command terminal_name) ≡ some terminal)
mouse_all-start_example = mouse_all-start second on_terminal (moved_on ∷ []) both_held
