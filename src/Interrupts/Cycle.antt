-- ===== src/Interrupts/Cycle.antt =====
-- The mouse's bytes are read in packets of three.
use electric_os.Base.{ℕ, true, false, List, [], ◌∷◌, ◌++◌, Option, some, ◌≡◌, refl, ◌>>=◌}
use electric_os.Base.Bits.{bit_at}
use electric_os.Stl.Point.{Point}
use electric_os.Input.Mouse.{handle_mouse_packet}
use electric_os.ProcessHandler.Events.{Reaction, mouse_interrupt}
use electric_os.Interrupts.{System, with_mouse, mouse_byte, mouse_bytes}

-- No byte could be the first of a packet.
abbrev pub IsNoise : List (ℕ × Reaction) → Type 0
IsNoise [] = Unit
IsNoise ((byte, reply) ∷ more) = (bit_at byte 3 ≡ false) × IsNoise more

-- A whole packet at once: its bytes, then the interrupt.
pub packet : System → Point → ℕ → ℕ → ℕ → Reaction → Option System
packet s screen flags dx dy reply =
    with_mouse (record s { packet_0 = flags; packet_1 = dx })
      (mouse_interrupt s.handler (handle_mouse_packet s.mouse screen flags dx dy) screen reply)

module _ (s : System) (screen : Point) (byte : ℕ) (reply : Reaction)
    (start : s.mouse_cycle ≡ 0) where
  mouse_byte-dull : bit_at byte 3 ≡ false → mouse_byte s screen byte reply ≡ some s
  unfolding mouse_byte
  mouse_byte-dull dull = simp (start, dull)

  mouse_byte-sync :
      bit_at byte 3 ≡ true
      → mouse_byte s screen byte reply ≡ some (record s { packet_0 = byte; mouse_cycle = 1 })
  unfolding mouse_byte
  mouse_byte-sync sync = simp (start, sync)

mouse_bytes-noise :
    (s : System) (screen : Point) (noise rest : List (ℕ × Reaction))
    → s.mouse_cycle ≡ 0
    → IsNoise noise
    → mouse_bytes s screen (noise ++ rest) ≡ mouse_bytes s screen rest
unfolding mouse_bytes mouse_byte
mouse_bytes-noise s screen [] rest start quiet = refl
mouse_bytes-noise s screen ((byte, reply) ∷ more) rest start (dull, quiet) =
    rw (mouse_byte-dull s screen byte reply start dull)
      (mouse_bytes-noise s screen more rest start quiet)

-- Where no packet has begun, bytes without bit 3 are dropped; then three bytes, the first of
-- them with bit 3, do what the packet does at once, and the bytes after them find no packet
-- begun.
pub mouse_bytes-packet :
    (s : System) (screen : Point) (noise rest : List (ℕ × Reaction)) (flags dx dy : ℕ)
    (first second third : Reaction)
    → s.mouse_cycle ≡ 0
    → IsNoise noise
    → bit_at flags 3 ≡ true
    → mouse_bytes s screen (noise ++ (flags, first) ∷ (dx, second) ∷ (dy, third) ∷ rest)
      ≡ (do t ← packet s screen flags dx dy third; mouse_bytes t screen rest)
unfolding mouse_bytes mouse_byte packet
mouse_bytes-packet s screen noise rest flags dx dy first second third start quiet sync =
    rw
      (
        mouse_bytes-noise s screen noise ((flags, first) ∷ (dx, second) ∷ (dy, third) ∷ rest) start
            quiet,
        mouse_byte-sync s screen flags first start sync,
      )
      refl
