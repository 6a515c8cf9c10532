-- ===== src/Input/Mouse/Packets.antt =====
-- What the bytes of a packet mean.
use electric_os.Base.{
  ℕ, ◌+◌, ◌<◌, Bool, true, false, ◌≡◌, ◌≢◌, refl, ap, ap₂, if◌then◌else◌, arith, ◌⊎◌,
}
use electric_os.Base.Bits.{bit_at}
use electric_os.Base.Int.{ℤ, pos, ◌+ℤ◌, ◌-ℤ◌, ◌≤ℤ◌, int_laws, eq_of_parts}
use electric_os.Stl.Point.{Point, point}
use electric_os.Stl.Clamp.{clamp, clamp_bounds}
use electric_os.Input.Mouse.{Mouse, negated, move_x, move_y, handle_mouse_packet}

-- A byte with its sign bit: a number of nine bits in two's complement.
pub delta : Bool → ℕ → ℤ
delta negative b = if negative then pos b -ℤ pos 256 else pos b

-- Every packet but those with a sign and a zero byte, which stand for -256.
abbrev pub IsExact : Bool → ℕ → Type 0
IsExact negative b = (negative ≡ false) ⊎ (b ≢ 0)

-- The two's complement of a byte that is not zero.
negated_parts : (b : ℕ) → b < 256 → IsExact true b → negated b + b ≡ 256
negated_parts b h exact = ground arith

step_forward :
    (x : ℤ) (negative : Bool) (b : ℕ)
    → b < 256
    → IsExact negative b
    → (if negative then x -ℤ pos (negated b) else x +ℤ pos b) ≡ x +ℤ delta negative b
unfolding delta
step_forward x true b h exact =
    let e = negated_parts b h exact in
    eq_of_parts (x -ℤ pos (negated b)) (x +ℤ (pos b -ℤ pos 256)) (omega int_laws)
step_forward x false b h exact = refl

step_back :
    (y : ℤ) (negative : Bool) (b : ℕ)
    → b < 256
    → IsExact negative b
    → (if negative then y +ℤ pos (negated b) else y -ℤ pos b) ≡ y -ℤ delta negative b
unfolding delta
step_back y true b h exact =
    let e = negated_parts b h exact in
    eq_of_parts (y +ℤ pos (negated b)) (y -ℤ (pos b -ℤ pos 256)) (omega int_laws)
step_back y false b h exact = refl

module _ (m : Mouse) (screen : Point) (flags dx dy : ℕ) where
  -- For bytes of a packet, other than a zero byte with its sign bit set, the position moves by
  -- the two numbers of nine bits that the bytes and the sign bits make, and is then kept on
  -- the screen.
  pub handle_mouse_packet-delta :
      dx < 256
      → dy < 256
      → IsExact (bit_at flags 4) dx
      → IsExact (bit_at flags 5) dy
      → (handle_mouse_packet m screen flags dx dy).position
        ≡ point
            (clamp (m.position.x +ℤ delta (bit_at flags 4) dx) (pos 0) (screen.x -ℤ pos 8))
            (clamp (m.position.y -ℤ delta (bit_at flags 5) dy) (pos 0) (screen.y -ℤ pos 16))
  unfolding handle_mouse_packet
  handle_mouse_packet-delta hx hy ex ey =
      ap₂ point
        (ap (λ x. clamp x (pos 0) (screen.x -ℤ pos 8))
          (step_forward m.position.x (bit_at flags 4) dx hx ex))
        (ap (λ y. clamp y (pos 0) (screen.y -ℤ pos 16))
          (step_back m.position.y (bit_at flags 5) dy hy ey))

  -- On a screen of at least 8 by 16 pixels, the position after a packet leaves room for the
  -- cursor, whatever the packet.
  handle_mouse_packet_bounds :
      pos 8 ≤ℤ screen.x
      → pos 16 ≤ℤ screen.y
      → let at = (handle_mouse_packet m screen flags dx dy).position in
        (pos 0 ≤ℤ at.x)
        × (at.x +ℤ pos 8 ≤ℤ screen.x)
        × (pos 0 ≤ℤ at.y)
        × (at.y +ℤ pos 16 ≤ℤ screen.y)
  unfolding handle_mouse_packet
  handle_mouse_packet_bounds wide high =
      let cx =
        clamp_bounds (move_x m.position.x flags dx) (pos 0) (screen.x -ℤ pos 8) (omega int_laws) in
      let cy =
        clamp_bounds (move_y m.position.y flags dy) (pos 0) (screen.y -ℤ pos 16) (omega int_laws) in
      (cx.0, omega int_laws, cy.0, omega int_laws)
