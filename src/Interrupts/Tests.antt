-- ===== src/Interrupts/Tests.antt =====
-- The handlers on a system that runs its terminal.
use electric_os.Base.{
  ℕ, ◌+◌, ◌≤◌, ◌>>=◌, false, [], ◌∷◌, ◌++◌, length, none, some, ◌≡◌, refl, arith,
}
use electric_os.Base.Int.{pos}
use electric_os.Stl.Point.{point}
use electric_os.ProcessHandler.{
  Process, Handler, ProcessInfo, fullscreen, success, draw, clear, find_procedure, start_process,
  is_fullscreen,
}
use electric_os.ProcessHandler.Depth.{count}
use electric_os.ProcessHandler.Invariant.{IsValid}
use electric_os.ProcessHandler.Start.{Started-Points, Started, start_process-Started, Started-some}
use electric_os.ProcessHandler.Events.{send_message}
use electric_os.ProcessHandler.Events.Interrupts.{redrawing, redrawing-Loyal}
use electric_os.ProcessHandler.Events.Suicide.{suicidal, send_message-suicide}
use electric_os.System.{suicide_command}
use electric_os.ProcessHandler.Events.Loop.{run_requests}
use electric_os.ProcessHandler.Events.Loop.Passes.{Ends}
use electric_os.Interrupts.{System, keyboard_byte, mouse_byte, mouse_bytes}
use electric_os.Interrupts.Cycle.{packet, mouse_bytes-packet}
use electric_os.Interrupts.Reach.{
  no_processes, no_processes-IsValid, started, Reachable, boot, next, Runs, Reachable-Runs,
  Reachable-IsValid,
}

abbrev memory : Process
memory = record {
  id = 0;
  type = fullscreen;
  procedure = 0;
  width = 0;
  height = 0;
  position = point (pos 0) (pos 0);
  depth = 0;
  requests = [];
}

abbrev terminal : ProcessInfo
terminal = record { type = fullscreen; depth = 0; width = 0; height = 0; left = 0; top = 0 }

abbrev booted : System
booted = record {
  handler = no_processes (point (pos 0) (pos 0));
  keyboard = record {
    key_cache = λ k. false;
    current_key = 0;
    caps_locked = false;
    behind = λ shifted i. 0;
  };
  mouse = record {
    position = point (pos 500) (pos 500);
    left_held = false;
    middle_held = false;
    right_held = false;
  };
  pit = record { ticks = 0; divisor = 11931 };
  time = record { second = 0; minute = 0; hour = 0; day = 1; month = 1; year = 22 };
  old_rtc_tick = 0;
  mouse_cycle = 0;
  packet_0 = 0;
  packet_1 = 0;
}

nothing_runs : find_procedure [] 0x4000 ≡ false
unfolding find_procedure
nothing_runs = refl

terminal-fits : 0 + count (λ q. is_fullscreen q.type) [] ≤ 0
unfolding count
terminal-fits = omega arith

terminal-Started :
    Started booted.handler 0x4000
      (start_process booted.handler memory (point (pos 1024) (pos 768)) 0x4000 terminal draw)
terminal-Started =
    start_process-Started booted.handler memory (point (pos 1024) (pos 768)) 0x4000 terminal draw
      (no_processes-IsValid (point (pos 0) (pos 0))) nothing_runs refl terminal-fits

abbrev with_terminal :
    (h : Handler) × (id : ℕ) × (start_process booted.handler memory
        (point (pos 1024) (pos 768))
        0x4000
        terminal
        draw
      ≡ some (h, id))
with_terminal = Started-some booted.handler 0x4000 _ terminal-Started

abbrev running : System
running = record booted { handler = with_terminal.0 }

running-Reachable : Reachable running
running-Reachable = next (boot booted (point (pos 0) (pos 0)) refl) (
    started booted memory (point (pos 1024) (pos 768)) 0x4000 terminal draw with_terminal.0
      with_terminal.1 nothing_runs refl terminal-fits with_terminal.2)

Reachable-Runs_example :
    IsValid running.handler
    × Runs (keyboard_byte running 0x1E (redrawing draw))
    × Runs (mouse_byte running (point (pos 1024) (pos 768)) 0x1E (redrawing draw))
    × Ends (
        run_requests
          (length running.handler.processes + 1)
          0
          running.handler
          (λ id. redrawing clear))
Reachable-Runs_example =
    Reachable-Runs running (point (pos 1024) (pos 768)) 0x1E (redrawing draw)
      (λ id. redrawing clear) (redrawing-Loyal draw) (λ s id e v here. omega arith)
      (λ id. redrawing-Loyal clear) (λ k s id e v here. refl) running-Reachable

mouse_bytes-packet_example :
    mouse_bytes running (point (pos 1024) (pos 768)) (
      ((0x10, redrawing success) ∷ [])
      ++ (0x09, redrawing success) ∷ (5, redrawing success) ∷ (7, redrawing draw) ∷ [])
    ≡ (do
      t ← packet running (point (pos 1024) (pos 768)) 0x09 5 7 (redrawing draw)
      mouse_bytes t (point (pos 1024) (pos 768)) [])
mouse_bytes-packet_example =
    mouse_bytes-packet running (point (pos 1024) (pos 768)) ((0x10, redrawing success) ∷ []) [] 0x09
      5 7 (redrawing success) (redrawing success) (redrawing draw) refl (refl, tt) refl

send_message-suicide_example :
    IsValid (suicide_command (record running.handler { last_messaged = some with_terminal.1 }))
    × (send_message running.handler with_terminal.1 (suicidal draw) ≡ none)
send_message-suicide_example =
    send_message-suicide running.handler with_terminal.1 draw
      (Reachable-IsValid running running-Reachable)
      (Started-Points booted.handler with_terminal.0 0x4000 with_terminal.1 _ with_terminal.2
        terminal-Started)
