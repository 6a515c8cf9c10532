-- ===== src/ProcessHandler.antt =====
-- src/ProcessHandler/ProcessHandler.cpp and Process.cpp: the list of processes, their requests and
-- the three pointers into the list. A process object is in one place of the list at most, so the
-- list holds the objects, and a pointer is the object's ID. What is drawn is left out.
pub mod Requests
pub mod Depth
pub mod Invariant
pub mod Start
pub mod Events
pub mod Window
mod Tests
use mathlib.Core.Option
use electric_os.Base.{
  ◌>>=◌, ℕ, zero, suc, ◌+◌, ◌-◌, Bool, true, false, not, ◌&&◌, ◌||◌, List, [], ◌∷◌, ◌++◌, length,
  set, ltb, leb, ◌==◌, if◌then◌else◌, Option, none, some,
}
use electric_os.Base.Int.{ℤ, pos, negsuc, pos_part, ◌+ℤ◌, ◌-ℤ◌, ltb_ℤ}
use electric_os.Stl.Point.{Point, point, contains}
use electric_os.Stl.Clamp.{clamp}

-- `STL::PROT`
pub data ProcessType : Type 0 where
  fullscreen windowed frameless_window minimized : ProcessType

-- `STL::PROR`
pub data Request : Type 0 where
  success reset clear draw kill : Request

-- `STL::PINFO`, without the title.
pub record ProcessInfo : Type 0 where
  pub type : ProcessType
  pub depth : ℕ
  pub width : ℕ
  pub height : ℕ
  pub left : ℕ
  pub top : ℕ

-- `Process`; `requests` is the used part of `Requests`, its last entry first, and `procedure` is the
-- address of the program.
pub record Process : Type 0 where
  pub id : ℕ
  pub type : ProcessType
  pub procedure : ℕ
  pub width : ℕ
  pub height : ℕ
  pub position : Point
  pub depth : ℕ
  pub requests : List Request

-- The globals, with the last ID given and the two requests of Compositor.cpp.
pub record Handler : Type 0 where
  pub processes : List Process
  pub last_messaged : Option ℕ
  pub focused : Option ℕ
  pub moving : Option ℕ
  pub moving_delta : Point
  pub new_id : ℕ
  pub redraw : Bool
  pub buffer_swap : Bool

abbrev pub is_minimized : ProcessType → Bool
is_minimized minimized = true
is_minimized _ = false

abbrev pub is_fullscreen : ProcessType → Bool
is_fullscreen fullscreen = true
is_fullscreen _ = false

abbrev pub is_success : Request → Bool
is_success success = true
is_success _ = false

abbrev pub pop_top : Process → List Request → Process × Request
pop_top p [] = (p, success)
pop_top p (r ∷ rs) = (record p { requests = rs }, r)

-- `PopRequest`
pub pop_request : Process → Process × Request
pop_request p = if is_minimized p.type then (p, success) else pop_top p p.requests

-- `PushRequest`
pub push_request : Process → Request → Process
push_request p r =
    if not (is_minimized p.type) && not (is_success r) && ltb (length p.requests) 16
    then record p { requests = r ∷ p.requests }
    else p

-- `SetPos`: RAISED_WIDTH is 4, and the frame is 30 high.
pub set_pos : Process → Point → Point → Process
set_pos p screen new =
    let w = pos p.width in
    let h = pos p.height in
    record p {
      position = elim p.type [
        | windowed ↦
            point (clamp new.x (pos 4) (screen.x -ℤ w -ℤ pos 4))
              (clamp new.y (pos 34) (screen.y -ℤ h -ℤ pos 4))
        | minimized ↦
            point (clamp new.x (pos 4) (screen.x -ℤ pos 4))
              (clamp new.y (pos 34) (screen.y -ℤ pos 4))
        | _ ↦ point (clamp new.x (pos 0) (screen.x -ℤ w)) (clamp new.y (pos 0) (screen.y -ℤ h))
      ];
    }

abbrev pub minimized_type : ProcessType → ProcessType
minimized_type minimized = windowed
minimized_type windowed = minimized
minimized_type t = t

-- `Minimize`
pub minimize : Process → Point → Process
minimize p screen = set_pos (record p { type = minimized_type p.type }) screen p.position

-- The place of a process in the list.
pub find_index : List Process → ℕ → Option ℕ
find_index [] id = none
find_index (p ∷ ps) id = if p.id == id then some 0 else Option.map suc (find_index ps id)

pub get : List Process → ℕ → Option Process
get [] i = none
get (p ∷ ps) zero = some p
get (p ∷ ps) (suc i) = get ps i

-- `this->Depth = Depth`
pub write_depth : List Process → ℕ → ℕ → List Process
write_depth [] id d = []
write_depth (p ∷ ps) id d = (if p.id == id then record p { depth = d } else p) ∷ write_depth ps id d

-- `none` where an index is out of the list.
abbrev pub swap : List Process → ℕ → ℕ → Option (List Process)
swap ps i d = do this ← get ps i; other ← get ps d; some (set (set ps i other) d this)

abbrev pub swap_found : List Process → Option ℕ → ℕ → Option (List Process)
swap_found ps none d = some ps
swap_found ps (some i) d = swap ps i d

-- `SetDepth` of the process `id`.
pub set_depth : List Process → ℕ → ℕ → Option (List Process)
set_depth ps id d =
    if ltb (length ps) d
    then some ps
    else (let qs = write_depth ps id d in swap_found qs (find_index qs id) d)

-- `List::Erase`
pub erase : List Process → ℕ → List Process
erase [] i = []
erase (p ∷ ps) zero = ps
erase (p ∷ ps) (suc i) = p ∷ erase ps i

abbrev pub forget : Option ℕ → ℕ → Option ℕ
forget none id = none
forget (some other) id = if other == id then none else some other

abbrev pub kill_found : Handler → ℕ → Option ℕ → Handler × Bool
kill_found s id none = (s, false)
kill_found s id (some i) = (
  record s {
    processes = erase s.processes i;
    focused = forget s.focused id;
    moving = forget s.moving id;
    last_messaged = none;
    redraw = true;
  },
  true,
)

-- `KillProcess`. The message KILL leaves `LastMessagedProcess` null; its answer goes to the object
-- that is then deleted.
pub kill_process : Handler → ℕ → Handler × Bool
kill_process s id = kill_found s id (find_index s.processes id)

-- `KillAllProcesses`, which keeps the focus and the window that is moved.
pub kill_all_processes : Handler → Handler
kill_all_processes s = record s {
  processes = [];
  last_messaged = elim s.processes [ [] ↦ s.last_messaged | p ∷ ps ↦ none ];
}

unfoldable pub find_procedure : List Process → ℕ → Bool
find_procedure [] procedure = false
find_procedure (p ∷ ps) procedure = (p.procedure == procedure) || find_procedure ps procedure

pub find_fullscreen : List Process → Option ℕ
find_fullscreen [] = none
find_fullscreen (p ∷ ps) = if is_fullscreen p.type then some p.id else find_fullscreen ps

-- The last part of the constructor: the frame buffer's size and the first request. A type that is
-- none of the three stops the system with an error.
abbrev pub framed : Process → Point → ProcessInfo → ProcessType → Option Process
framed p screen info fullscreen = some (
    push_request
      (record p {
        position = point (pos 0) (pos 0);
        width = pos_part screen.x;
        height = pos_part screen.y;
      })
      draw)
framed p screen info minimized = none
framed p screen info _ =
    some (push_request (record p { width = info.width; height = info.height }) draw)

-- What INIT answered in `info`. The process is in no list yet, so `SetDepth` writes the field alone,
-- or nothing.
abbrev pub described : Handler → Process → ProcessInfo → Process
described s p info = record p {
  type = info.type;
  position = point (pos info.left) (pos info.top);
  depth = if ltb (length s.processes) info.depth then p.depth else info.depth;
}

-- The constructor, on memory that holds `fresh`: `reply` answers the message INIT, which fills in
-- `info`.
pub new_process : Handler → Process → Point → ℕ → ProcessInfo → Request → Option Process
new_process s fresh screen procedure info reply =
    let p =
      push_request (record fresh { id = suc s.new_id; procedure = procedure; requests = [] })
        reply in
    framed (described s p info) screen info info.type

abbrev pub kill_if : Handler → Option ℕ → Handler
kill_if s none = s
kill_if s (some id) = (kill_process s id).0

-- `Push` and `UpdateDepth` of a new process, which replaces a full screen one.
pub add_process : Handler → Process → Option (Handler × ℕ)
add_process s p =
    let s1 = if is_fullscreen p.type then kill_if s (find_fullscreen s.processes) else s in
    do
      ps ← set_depth (s1.processes ++ (p ∷ [])) p.id p.depth
      some (record s1 { processes = ps }, p.id)

-- `StartProcess`: 0 for a program that runs already. `none` where it stops with an error or leaves
-- the list's bounds.
pub start_process : Handler → Process → Point → ℕ → ProcessInfo → Request → Option (Handler × ℕ)
start_process s fresh screen procedure info reply =
    if find_procedure s.processes procedure then some (s, 0) else do
      p ← new_process s fresh screen procedure info reply
      add_process (record s { new_id = suc s.new_id; last_messaged = none }) p
