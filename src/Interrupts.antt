-- ===== src/Interrupts.antt =====
-- src/Interrupts/Handlers.cpp: the handlers of the timer, the keyboard and the mouse, with what they
-- call. How programs react and the chip's registers are parameters; the handlers of the
-- processor's exceptions stop the system and are left out, as are the writes to the controllers.
pub mod Idt
pub mod Cycle
pub mod Reach
mod Tests
use electric_os.Base.{
  ◌>>=◌, ℕ, ◌+◌, ◌≤◌, Bool, true, false, not, List, [], ◌∷◌, leb, ◌==◌, if◌then◌else◌, Option, none,
  some, u64,
}
use electric_os.Base.Bits.{bit_at}
use electric_os.Stl.Point.{Point}
use electric_os.Input.KeyBoard.{KeyBoard, handle_scan_code}
use electric_os.Input.Mouse.{Mouse, handle_mouse_packet}
use electric_os.Clock.Pit.{Pit, tick}
use electric_os.Clock.Rtc.{Time, update}
use electric_os.ProcessHandler.{Request, Handler}
use electric_os.ProcessHandler.Events.{Reaction, keyboard_interrupt, pit_interrupt, mouse_interrupt}

-- The state that the handlers share, with their static variables: the last tick at which the clock
-- was read, and the mouse's cycle with the packet's first two bytes, which are stored again before
-- the next packet is read.
pub record System : Type 0 where
  pub handler : Handler
  pub keyboard : KeyBoard
  pub mouse : Mouse
  pub pit : Pit
  pub time : Time
  pub old_rtc_tick : ℕ
  pub mouse_cycle : ℕ
  pub packet_0 : ℕ
  pub packet_1 : ℕ

-- `PIT`
pub timer : System → (ℕ → ℕ) → (ℕ → Request) → System
timer s registers replies =
    let p = tick s.pit in
    let s1 =
      if leb (u64 (s.old_rtc_tick + 100)) p.ticks
      then record s { pit = p; time = update registers; old_rtc_tick = p.ticks }
      else record s { pit = p } in
    record s1 { handler = pit_interrupt s1.handler replies }

abbrev pub with_keys : System → Option (Handler × KeyBoard) → Option System
with_keys s none = none
with_keys s (some (h, k)) = some (record s { handler = h; keyboard = k })

-- `Keyboard`; `none` here and below is a pointer followed to a process that is gone,
-- or an index behind the list.
pub keyboard_byte : System → ℕ → Reaction → Option System
keyboard_byte s code reply =
    let k = handle_scan_code s.keyboard code in
    if bit_at code 7
    then some (record s { keyboard = k })
    else with_keys s (keyboard_interrupt s.handler k reply)

abbrev pub with_mouse : System → Option (Handler × Mouse) → Option System
with_mouse s none = none
with_mouse s (some (h, m)) = some (record s { handler = h; mouse = m; mouse_cycle = 0 })

-- `Mouse`, for a byte of its packets: only the first one has to have bit 3.
pub mouse_byte : System → Point → ℕ → Reaction → Option System
mouse_byte s screen byte reply =
    if s.mouse_cycle == 0
    then (if bit_at byte 3 then some (record s { packet_0 = byte; mouse_cycle = 1 }) else some s)
    else if s.mouse_cycle == 1
    then some (record s { packet_1 = byte; mouse_cycle = 2 })
    else if s.mouse_cycle == 2
    then with_mouse s (
        mouse_interrupt s.handler (handle_mouse_packet s.mouse screen s.packet_0 s.packet_1 byte)
          screen reply)
    else some s

-- The bytes that come one after the other, each with a program's reaction.
pub mouse_bytes : System → Point → List (ℕ × Reaction) → Option System
mouse_bytes s screen [] = some s
mouse_bytes s screen ((byte, reply) ∷ more) = do
  s1 ← mouse_byte s screen byte reply
  mouse_bytes s1 screen more
