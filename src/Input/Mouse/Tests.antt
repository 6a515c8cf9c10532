-- ===== src/Input/Mouse/Tests.antt =====
-- A packet that moves the mouse by -3 and 5 with the left button held.
use electric_os.Base.{◌≡◌, refl, false, arith, inl, inr}
use electric_os.Base.Bits.{bit_at}
use electric_os.Base.Int.{pos, ◌+ℤ◌, ◌-ℤ◌}
use electric_os.Stl.Point.{point}
use electric_os.Stl.Clamp.{clamp}
use electric_os.Input.Mouse.{Mouse, handle_mouse_packet}
use electric_os.Input.Mouse.Packets.{delta, handle_mouse_packet-delta}

abbrev mouse : Mouse
mouse = record {
  position = point (pos 2) (pos 500);
  left_held = false;
  middle_held = false;
  right_held = false;
}

handle_mouse_packet-delta_example :
    (handle_mouse_packet mouse (point (pos 1024) (pos 768)) 0x19 253 5).position
    ≡ point
        (clamp (pos 2 +ℤ delta (bit_at 0x19 4) 253) (pos 0) (pos 1024 -ℤ pos 8))
        (clamp (pos 500 -ℤ delta (bit_at 0x19 5) 5) (pos 0) (pos 768 -ℤ pos 16))
handle_mouse_packet-delta_example =
    handle_mouse_packet-delta mouse (point (pos 1024) (pos 768)) 0x19 253 5 (omega arith)
      (omega arith) (inr (omega arith)) (inl refl)
