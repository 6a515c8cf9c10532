-- ===== src/Input/Mouse.antt =====
-- src/Input/Mouse.cpp: what a packet of three bytes does to the position and the buttons. The port
-- protocol of `InitPS2` is left out.
pub mod Packets
mod Tests
use electric_os.Base.{ℕ, ◌+◌, ◌-◌, ◌%◌, ◌/◌, ◌^◌, Bool, true, false, ◌||◌, if◌then◌else◌}
use electric_os.Base.Bits.{bit_at}
use electric_os.Base.Int.{ℤ, pos, ◌+ℤ◌, ◌-ℤ◌}
use electric_os.Stl.Point.{Point, point}
use electric_os.Stl.Clamp.{clamp}

-- The globals.
pub record Mouse : Type 0 where
  pub position : Point
  pub left_held : Bool
  pub middle_held : Bool
  pub right_held : Bool

-- `256 - MousePacket[i]`, stored in a `uint8_t`.
abbrev pub negated : ℕ → ℕ
negated b = (256 - b) % 256

abbrev pub move_x : ℤ → ℕ → ℕ → ℤ
move_x x flags b = if bit_at flags 4 then x -ℤ pos (negated b) else x +ℤ pos b

abbrev pub move_y : ℤ → ℕ → ℕ → ℤ
move_y y flags b = if bit_at flags 5 then y +ℤ pos (negated b) else y -ℤ pos b

-- `HandleMousePacket`, on a screen of the given size.
pub handle_mouse_packet : Mouse → Point → ℕ → ℕ → ℕ → Mouse
handle_mouse_packet m screen flags dx dy = record {
  position =
      point (clamp (move_x m.position.x flags dx) (pos 0) (screen.x -ℤ pos 8))
        (clamp (move_y m.position.y flags dy) (pos 0) (screen.y -ℤ pos 16));
  left_held = bit_at flags 0 || m.left_held;
  middle_held = bit_at flags 1 || m.middle_held;
  right_held = bit_at flags 2 || m.right_held;
}
