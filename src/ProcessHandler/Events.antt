-- ===== src/ProcessHandler/Events.antt =====
-- src/ProcessHandler/ProcessHandler.cpp and Compositor.cpp: the focus, the three interrupts, a pass
-- of the main loop, and the two redraw requests. Pointers to processes are followed by `deref`,
-- which is `none` where the object is gone. How programs react to a message is an argument; on TICK
-- none of them starts or kills a process.
pub mod Recount
pub mod Interrupts
pub mod Handlers
pub mod Suicide
pub mod Starting
pub mod Loop
use electric_os.Base.{
  ◌>>=◌, ℕ, zero, suc, ◌+◌, ◌-◌, Bool, true, false, not, ◌&&◌, ◌||◌, List, [], ◌∷◌, map, length,
  ltb, leb, ◌==◌, if◌then◌else◌, Option, none, some,
}
use electric_os.Base.Int.{ℤ, pos, negsuc, ◌+ℤ◌, ◌-ℤ◌, ltb_ℤ}
use electric_os.Stl.Point.{Point, point, add_point, sub_point, contains}
use electric_os.Input.KeyBoard.{KeyBoard, get_key_press}
use electric_os.Input.Mouse.{Mouse}
use electric_os.ProcessHandler.{
  Process, ProcessType, fullscreen, windowed, frameless_window, minimized, Request, success, reset,
  clear, draw, kill, Handler, is_fullscreen, is_minimized, pop_request, push_request, set_pos,
  minimize, get, set_depth, kill_process, kill_all_processes,
}

abbrev pub is_windowed : ProcessType → Bool
is_windowed windowed = true
is_windowed _ = false

-- The object behind a pointer.
pub find_process : List Process → ℕ → Option Process
find_process [] id = none
find_process (p ∷ ps) id = if p.id == id then some p else find_process ps id

-- A write to the object behind a pointer.
pub update_process : List Process → ℕ → (Process → Process) → List Process
update_process [] id f = []
update_process (p ∷ ps) id f = (if p.id == id then f p else p) ∷ update_process ps id f

abbrev pub deref : Handler → ℕ → (Process → Process) → Option Handler
deref s id f = do
  _ ← find_process s.processes id
  some (record s { processes = update_process s.processes id f })

-- What a program makes of a message: what it does to the process handler by `STL::System`, which
-- starts and kills processes, and then its answer.
pub record Reaction : Type 0 where
  pub acts : Handler → Handler
  pub reply : Request

-- `SendMessage`: the process is `LastMessagedProcess` while its program runs, and is used again
-- behind that.
pub send_message : Handler → ℕ → Reaction → Option Handler
send_message s id r = do
  _ ← find_process s.processes id
  s1 ← deref (r.acts (record s { last_messaged = some id })) id (λ p. push_request p r.reply)
  some (record s1 { last_messaged = none })

abbrev pub was_windowed : List Process → Option ℕ → Option Bool
was_windowed ps none = some false
was_windowed ps (some id) = do p ← find_process ps id; some (is_windowed p.type)

-- `SetFocusedProcess` of a process.
pub set_focused_process : Handler → ℕ → Option Handler
set_focused_process s id = do
  p ← find_process s.processes id
  old ← was_windowed s.processes s.focused
  let s1 = record s { redraw = s.redraw || old || is_windowed p.type; focused = some id }
  ps ←
      if is_fullscreen p.type
      then some s.processes
      else set_depth s.processes id (length s.processes - 1)
  some (record s1 { processes = ps })

-- `KeyBoardInterupt`: the key is taken from the keyboard only if a process has the focus.
abbrev pub key_to : Handler → KeyBoard → Reaction → Option ℕ → Option (Handler × KeyBoard)
key_to s k r none = some (s, k)
key_to s k r (some id) = do s1 ← send_message s id r; some (s1, (get_key_press k).0)

pub keyboard_interrupt : Handler → KeyBoard → Reaction → Option (Handler × KeyBoard)
keyboard_interrupt s k r = key_to s k r s.focused

-- `PITInterupt`, where the process of an ID answers `replies id`.
pub pit_interrupt : Handler → (ℕ → Request) → Handler
pit_interrupt s replies = record s {
  processes = map (λ p. push_request p (replies p.id)) s.processes;
  last_messaged = elim s.processes [ [] ↦ s.last_messaged | p ∷ ps ↦ none ];
}

-- `GetSize`
pub get_size : Process → Point
get_size p =
    if is_minimized p.type then point (pos 200) (pos 0) else point (pos p.width) (pos p.height)

-- FRAME_OFFSET, and the offsets and the size of the two buttons as the macros compute.
abbrev pub frame_offset : Point
frame_offset = point (pos 0) (pos 30)

abbrev pub close_button_offset : Point
close_button_offset = point (negsuc 23) (negsuc 22)

abbrev pub minimize_button_offset : Point
minimize_button_offset = point (negsuc 51) (negsuc 22)

abbrev pub button_size : Point
button_size = point (pos 16) (pos 16)

-- `GetCloseButtonPos` and `GetMinimizeButtonPos`
abbrev pub button_pos : Point → Process → Point
button_pos offset p = add_point (add_point offset (point (get_size p).x (pos 0))) p.position

-- `Contains` of a point
abbrev pub contains_point : Process → Point → Bool
contains_point p other = contains p.position (add_point p.position (get_size p)) other

-- What the mouse meets at a process.
pub data Hit : Type 0 where
  close_button minimize_button frame window nothing : Hit

pub hit : Process → Mouse → Hit
hit p m =
    if m.left_held
      && (is_windowed p.type || is_minimized p.type)
      && contains (sub_point p.position frame_offset)
          (add_point p.position (point (get_size p).x (pos 0))) m.position
    then (if contains (button_pos close_button_offset p)
          (add_point (button_pos close_button_offset p) button_size) m.position
        then close_button
        else if contains (button_pos minimize_button_offset p)
            (add_point (button_pos minimize_button_offset p) button_size) m.position
        then minimize_button
        else frame)
    else if contains_point p m.position
    then window
    else nothing

abbrev pub first_hit : Process → Hit → Option (ℕ × Process × Hit)
first_hit p nothing = none
first_hit p h = some (0, p, h)

-- The loop of `MouseInterupt`, which starts at the last process: the index at which it stops.
pub find_hit : List Process → Mouse → Option (ℕ × Process × Hit)
find_hit [] m = none
find_hit (p ∷ ps) m = elim (find_hit ps m) [
  | none ↦ first_hit p (hit p m)
  | some (i, q, h) ↦ some (suc i, q, h)
]

-- Behind the message, the list is read at the index again.
pub on_hit : Handler → Mouse → Point → Reaction → ℕ → Process → Hit → Option Handler
on_hit s m screen r i p close_button = some (kill_process s p.id).0
on_hit s m screen r i p minimize_button =
    deref (record s { redraw = true }) p.id (λ q. minimize q screen)
on_hit s m screen r i p frame =
    set_focused_process
      (record s { moving = some p.id; moving_delta = sub_point p.position m.position }) p.id
on_hit s m screen r i p window = do
  s1 ← send_message s p.id r
  if m.left_held then (do q ← get s1.processes i; set_focused_process s1 q.id) else some s1
on_hit s m screen r i p nothing = some s

abbrev pub no_window_moves :
    Handler → Mouse → Point → Reaction → Option (ℕ × Process × Hit) → Option Handler
no_window_moves s m screen r none = some s
no_window_moves s m screen r (some (i, p, h)) = on_hit s m screen r i p h

-- The window that is moved follows the mouse, and is dropped where the button is up.
abbrev pub follow : Handler → Mouse → Point → Reaction → Option ℕ → Option Handler
follow s m screen r none = no_window_moves s m screen r (find_hit s.processes m)
follow s m screen r (some id) =
    deref
      (if m.left_held
        then record s { redraw = true }
        else record s { redraw = true; focused = some id; moving = none })
      id (λ q. set_pos q screen (add_point m.position s.moving_delta))

abbrev pub released : Mouse → Mouse
released m = record m { left_held = false; middle_held = false; right_held = false }

-- `MouseInterupt`
pub mouse_interrupt : Handler → Mouse → Point → Reaction → Option (Handler × Mouse)
mouse_interrupt s m screen r = do s1 ← follow s m screen r s.moving; some (s1, released m)
