-- ===== src/Programs/Topbar/Menus.antt =====
-- What two clicks on a button of the top bar do.
use electric_os.Base.{ℕ, ◌≡◌, true, false, List, Option}
use electric_os.Stl.Gui.{MouseInfo, Button, is_held}
use electric_os.System.{Program, systemmenu, startmenu}
use electric_os.Programs.Topbar.{Topbar, start_systemmenu, start_startmenu}

pub data Menu : Type 0 where
  system_menu start_menu : Menu

abbrev pub other : Menu → Menu
other system_menu = start_menu
other start_menu = system_menu

abbrev pub button_of : Menu → Topbar → Button
button_of system_menu s = s.system_button
button_of start_menu s = s.start_button

abbrev pub id_of : Menu → Topbar → Option ℕ
id_of system_menu s = s.system_menu_id
id_of start_menu s = s.start_menu_id

abbrev pub start_text : Menu → List ℕ
start_text system_menu = start_systemmenu
start_text start_menu = start_startmenu

abbrev pub program_of : Menu → Program
program_of system_menu = systemmenu
program_of start_menu = startmenu

-- The mouse is held over the button of the menu, and not over the other one.
pub record Over (menu : Menu) (s : Topbar) (m : MouseInfo) : Type 0 where
  pub held : is_held (button_of menu s) m ≡ true
  pub alone : is_held (button_of (other menu) s) m ≡ false
