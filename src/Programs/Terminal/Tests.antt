-- ===== src/Programs/Terminal/Tests.antt =====
-- A window of 40 by 80 pixels, with its cursor near the bottom and a line to print.
use electric_os.Base.{
  ◌+◌, ◌*◌, ◌-◌, ◌≤◌, ◌≡◌, arith, true, false, if◌then◌else◌, ltb, [], ◌∷◌, some,
}
use electric_os.Base.Int.{pos}
use electric_os.Stl.Point.{point}
use electric_os.Stl.Cstr.{line_amount}
use electric_os.Stl.Framebuffer.{Framebuffer, gray}
use electric_os.Programs.Terminal.{Terminal, needed, make_room}
use electric_os.Programs.Terminal.Scroll.{moved_up}
use electric_os.Programs.Terminal.Room.{IsWindow, make_room_lem}

abbrev at_bottom : Terminal
at_bottom = record {
  prev_tick = 0;
  command = [];
  text = b'a' ∷ 10 ∷ 13 ∷ [];
  cursor = point (pos 12) (pos 60);
  redraw_text = true;
  draw_underline = false;
}

abbrev striped : Framebuffer
striped = record { base = λ i. gray (i - 1); width = 40; height = 80; pixels_per_scanline = 41 }

striped-IsWindow : IsWindow at_bottom striped
unfolding line_amount
striped-IsWindow = record {
  text_fits = omega arith;
  scrolls = omega arith;
  wide = omega arith;
  height_bound = omega arith;
  width_bound = omega arith;
  pitch = omega arith;
}

make_room_lem_example :
    (t : Terminal) × (gb : Framebuffer) × (make_room at_bottom striped ≡ some (t, gb))
    × (needed t ≤ 80)
    × (t.text ≡ at_bottom.text)
    × (t.cursor.x ≡ pos 12)
    × (gb.base (20 + 30 * 41) ≡ (
        if ltb 80 (needed at_bottom)
        then moved_up striped (needed at_bottom - 80) 20 30
        else gray (20 + 30 * 41 - 1)))
make_room_lem_example = make_room_lem at_bottom striped 20 30 striped-IsWindow (omega arith)
