-- ===== src/Interrupts/Reach.antt =====
-- The states that the interrupts, the main loop and the system calls lead to.
use electric_os.Base.{
  ℕ, ◌+◌, ◌≤◌, ◌<◌, false, [], length, leb, ◌==◌, if◌then◌else◌, Option, none, some, ◌≡◌, refl, sym,
  arith, subst, if_both, u64,
}
use electric_os.Base.Bits.{bit_at}
use electric_os.Stl.Point.{Point}
use electric_os.Input.KeyBoard.{KeyBoard, handle_scan_code}
use electric_os.Input.Mouse.{Mouse, handle_mouse_packet}
use electric_os.Clock.Pit.{tick}
use electric_os.ProcessHandler.{
  Process, ProcessInfo, Request, Handler, is_fullscreen, is_minimized, find_procedure, kill_process,
  start_process,
}
use electric_os.ProcessHandler.Depth.{count}
use electric_os.ProcessHandler.Invariant.{IsValid, kill_process-IsValid}
use electric_os.ProcessHandler.Start.{start_process-Started, Started-IsValid}
use electric_os.ProcessHandler.Events.{Reaction, keyboard_interrupt, pit_interrupt, mouse_interrupt}
use electric_os.ProcessHandler.Events.Handlers.{
  SucceedsWith, keyboard_interrupt-IsValid, pit_interrupt-IsValid, mouse_interrupt-IsValid,
}
use electric_os.ProcessHandler.Events.Interrupts.{Loyal, NoFewer, AsMany}
use electric_os.ProcessHandler.Events.Loop.{update_all, serve, next_at, run_requests}
use electric_os.ProcessHandler.Events.Loop.Passes.{
  Ends, serve-IsValid, run_requests-Ends, update_all-IsValid,
}
use electric_os.Interrupts.{System, timer, with_keys, keyboard_byte, with_mouse, mouse_byte}

-- The globals of the process handler before the first program.
abbrev pub no_processes : Point → Handler
no_processes delta = record {
  processes = [];
  last_messaged = none;
  focused = none;
  moving = none;
  moving_delta = delta;
  new_id = 0;
  redraw = false;
  buffer_swap = false;
}

-- Interrupts may come between any two rounds of the main loop. A program that is messaged does not
-- kill its own process and, by the mouse, does not leave fewer processes. A program is started that does not
-- run yet, and asks for a depth inside the list.
pub data Step : System → System → Type 0 where
  timer_tick :
      (s : System) (registers : ℕ → ℕ) (replies : ℕ → Request) → Step s (timer s registers replies)
  key :
      (s t : System) (code : ℕ) (r : Reaction)
      → Loyal r
      → keyboard_byte s code r ≡ some t
      → Step s t
  mouse_moved :
      (s t : System) (screen : Point) (byte : ℕ) (r : Reaction)
      → Loyal r
      → NoFewer r
      → mouse_byte s screen byte r ≡ some t
      → Step s t
  round :
      (s : System) (i j : ℕ) (h : Handler) (replies : ℕ → Reaction)
      → ((id : ℕ) → Loyal (replies id))
      → i < length s.handler.processes
      → serve s.handler i replies ≡ next_at j h
      → Step s (record s { handler = h })
  shown : (s : System) → Step s (record s { handler = update_all s.handler })
  started :
      (s : System) (fresh : Process) (screen : Point) (procedure : ℕ) (info : ProcessInfo)
      (reply : Request) (h : Handler) (id : ℕ)
      → find_procedure s.handler.processes procedure ≡ false
      → is_minimized info.type ≡ false
      → info.depth
          + (if is_fullscreen info.type
              then count (λ q. is_fullscreen q.type) s.handler.processes
              else 0)
        ≤ length s.handler.processes
      → start_process s.handler fresh screen procedure info reply ≡ some (h, id)
      → Step s (record s { handler = h })
  killed : (s : System) (id : ℕ) → Step s (record s { handler = (kill_process s.handler id).0 })

pub data Reachable : System → Type 0 where
  boot : (s : System) (delta : Point) → s.handler ≡ no_processes delta → Reachable s
  next : {s t : System} → Reachable s → Step s t → Reachable t

timer-IsValid :
    (s : System) (registers : ℕ → ℕ) (replies : ℕ → Request)
    → IsValid s.handler
    → IsValid (timer s registers replies).handler
unfolding timer
timer-IsValid s registers replies v =
    if_both (λ (t : System). IsValid (pit_interrupt t.handler replies))
      (leb (u64 (s.old_rtc_tick + 100)) (tick s.pit).ticks) {x = _} {y = _}
      (pit_interrupt-IsValid s.handler replies v) (pit_interrupt-IsValid s.handler replies v)

-- There is a next state, and its process handler is valid.
abbrev pub Runs : Option System → Type 0
Runs none = ⊥
Runs (some s) = IsValid s.handler

keyboard_byte-Runs :
    (s : System) (code : ℕ) (r : Reaction)
    → Loyal r
    → IsValid s.handler
    → Runs (keyboard_byte s code r)
unfolding keyboard_byte
keyboard_byte-Runs s code r loyal v = if_both Runs (bit_at code 7) v (
    keys (keyboard_interrupt s.handler (handle_scan_code s.keyboard code) r)
      (keyboard_interrupt-IsValid s.handler (handle_scan_code s.keyboard code) r loyal v))
  where
    keys : (o : Option (Handler × KeyBoard)) → SucceedsWith o → Runs (with_keys s o)
    keys none h = h
    keys (some (h, k)) u = u

mouse_byte-Runs :
    (s : System) (screen : Point) (byte : ℕ) (r : Reaction)
    → Loyal r
    → NoFewer r
    → IsValid s.handler
    → Runs (mouse_byte s screen byte r)
unfolding mouse_byte
mouse_byte-Runs s screen byte r loyal no_fewer v =
    let m = handle_mouse_packet s.mouse screen s.packet_0 s.packet_1 byte in
    if_both Runs (s.mouse_cycle == 0) (if_both Runs (bit_at byte 3) v v) (
      if_both Runs (s.mouse_cycle == 1) v (
        if_both Runs (s.mouse_cycle == 2)
          (moves (mouse_interrupt s.handler m screen r)
            (mouse_interrupt-IsValid m screen r loyal no_fewer s.handler v))
          v))
  where
    moves : (o : Option (Handler × Mouse)) → SucceedsWith o → Runs (with_mouse s o)
    moves none h = h
    moves (some (h, m)) u = u

pub no_processes-IsValid : (delta : Point) → IsValid (no_processes delta)
unfolding count
no_processes-IsValid delta = record {
  ids = λ id. omega arith;
  programs = λ a. omega arith;
  screens = omega arith;
  given = λ id h. refl;
  focused = tt;
  moving = tt;
}

Step-IsValid : {s t : System} → Step s t → IsValid s.handler → IsValid t.handler
Step-IsValid (timer_tick s registers replies) v = timer-IsValid s registers replies v
Step-IsValid (key s t code r loyal e) v = subst Runs e (keyboard_byte-Runs s code r loyal v)
Step-IsValid (mouse_moved s t screen byte r loyal no_fewer e) v =
    subst Runs e (mouse_byte-Runs s screen byte r loyal no_fewer v)
Step-IsValid (round s i j h replies loyal small e) v =
    serve-IsValid s.handler h i j replies loyal v small e
Step-IsValid (shown s) v = update_all-IsValid s.handler v
Step-IsValid (started s fresh screen procedure info reply h id new_program shows fits e) v =
    Started-IsValid s.handler h procedure id _ e
      (start_process-Started s.handler fresh screen procedure info reply v new_program shows fits)
Step-IsValid (killed s id) v = kill_process-IsValid s.handler id v

-- No state that is reached has a dangling pointer.
pub Reachable-IsValid : (s : System) → Reachable s → IsValid s.handler
Reachable-IsValid s (boot s' delta e) = subst IsValid (sym e) (no_processes-IsValid delta)
Reachable-IsValid s (next before step) = Step-IsValid step (Reachable-IsValid _ before)

-- For programs that, while they are messaged, do not kill their own process and keep the process
-- handler's invariant, where the one that the mouse messages does not leave fewer processes, and
-- each that is drawn leaves as many: from each state that the timer, keys, mouse bytes, rounds
-- of the main loop, screen updates, killing processes, and starting programs that do not run
-- yet, are not minimized and ask for a depth inside the list, lead to from an empty system, the
-- process handler is valid; the handlers of a key and of a mouse byte follow no pointer to a
-- process that is gone and leave a valid process handler; and a pass of the main loop ends in a
-- valid state or with all processes killed, within one round more than there are processes.
pub Reachable-Runs :
    (s : System) (screen : Point) (byte : ℕ) (r : Reaction) (replies : ℕ → Reaction)
    → Loyal r
    → NoFewer r
    → ((id : ℕ) → Loyal (replies id))
    → ((id : ℕ) → AsMany (replies id))
    → Reachable s
    → IsValid s.handler
      × Runs (keyboard_byte s byte r)
      × Runs (mouse_byte s screen byte r)
      × Ends (run_requests (length s.handler.processes + 1) 0 s.handler replies)
Reachable-Runs s screen byte r replies loyal no_fewer all_loyal steady reach =
    let v = Reachable-IsValid s reach in
    (
      v,
      keyboard_byte-Runs s byte r loyal v,
      mouse_byte-Runs s screen byte r loyal no_fewer v,
      run_requests-Ends _ s.handler replies all_loyal steady v (omega arith),
    )
