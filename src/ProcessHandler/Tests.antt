-- ===== src/ProcessHandler/Tests.antt =====
-- The theorems on processes at a concrete list.
use electric_os.Base.{◌+◌, ◌≤◌, ◌≡◌, refl, arith, false, ◌==◌, none, some, ◌∷◌, []}
use electric_os.Base.Int.{pos}
use electric_os.Stl.Point.{point}
use electric_os.ProcessHandler.{
  Process, windowed, frameless_window, fullscreen, success, draw, kill, ProcessInfo, Handler,
  is_fullscreen, clear, kill_process, find_procedure, start_process,
}
use electric_os.ProcessHandler.Events.Loop.{run_requests}
use electric_os.ProcessHandler.Events.Loop.Passes.{
  Ends, run_requests-Ends, IsSafe, run_requests-IsSafe,
}
use electric_os.ProcessHandler.Events.Starting.{starting, starting-Loyal}
use electric_os.ProcessHandler.Events.Interrupts.{redrawing, redrawing-Loyal, Loyal, NoFewer}
use electric_os.ProcessHandler.Depth.{count}
use electric_os.ProcessHandler.Invariant.{IsValid, kill_process_lem}
use electric_os.ProcessHandler.Start.{Started, start_process-Started}

abbrev terminal : Process
terminal = record {
  id = 1;
  type = fullscreen;
  procedure = 0x4000;
  width = 1024;
  height = 768;
  position = point (pos 0) (pos 0);
  depth = 0;
  requests = [];
}

abbrev window : Process
window = record terminal { id = 2; type = windowed; procedure = 0x5000 }

abbrev running : Handler
running = record {
  processes = terminal ∷ window ∷ [];
  last_messaged = none;
  focused = some 2;
  moving = none;
  moving_delta = point (pos 0) (pos 0);
  new_id = 2;
  redraw = false;
  buffer_swap = false;
}

running-IsValid : IsValid running
unfolding count
running-IsValid = record {
  ids = λ id. ground arith;
  programs = λ a. ground arith;
  screens = omega arith;
  given = λ id h. ground arith;
  focused = refl;
  moving = tt;
}

asking-IsValid : IsValid (record running {
  processes =
      record terminal { requests = clear ∷ [] } ∷ record window { requests = kill ∷ [] } ∷ [];
})
unfolding count
asking-IsValid = record {
  ids = λ id. ground arith;
  programs = λ a. ground arith;
  screens = omega arith;
  given = λ id h. ground arith;
  focused = refl;
  moving = tt;
}

kill_process_lem_example :
    IsValid (kill_process running 2).0
    × (count (λ p. p.id == 2) (kill_process running 2).0.processes ≡ 0)
kill_process_lem_example = kill_process_lem running 2 running-IsValid

-- A full screen program, which replaces the terminal.
abbrev desktop : ProcessInfo
desktop = record { type = fullscreen; depth = 0; width = 0; height = 0; left = 0; top = 0 }

no_desktop : find_procedure running.processes 0x6000 ≡ false
unfolding find_procedure
no_desktop = refl

desktop-fits : 0 + count (λ q. is_fullscreen q.type) running.processes ≤ 2
unfolding count
desktop-fits = omega arith

start_process-Started_example :
    Started running 0x6000
      (start_process running terminal (point (pos 1024) (pos 768)) 0x6000 desktop success)
start_process-Started_example =
    start_process-Started running terminal (point (pos 1024) (pos 768)) 0x6000 desktop success
      running-IsValid no_desktop refl desktop-fits

-- The window asks to be killed, and the terminal to be cleared.
run_requests-Ends_example : Ends (
    run_requests 3 0
      (record running {
        processes =
            record terminal { requests = clear ∷ [] } ∷ record window { requests = kill ∷ [] } ∷ [];
      })
      (λ id. redrawing draw))
run_requests-Ends_example =
    run_requests-Ends 3 _ (λ id. redrawing draw) (λ id. redrawing-Loyal draw)
      (λ k s id e v here. refl) asking-IsValid (omega arith)

-- A bar at the top, which the terminal starts when it is drawn.
abbrev bar : ProcessInfo
bar = record { type = frameless_window; depth = 1; width = 1024; height = 44; left = 0; top = 0 }

bar-Loyal :
    Loyal (starting window (point (pos 1024) (pos 768)) 0x6000 bar draw draw)
    × NoFewer (starting window (point (pos 1024) (pos 768)) 0x6000 bar draw draw)
bar-Loyal =
    starting-Loyal window (point (pos 1024) (pos 768)) 0x6000 bar draw draw refl refl (omega arith)

run_requests-IsSafe_example : IsSafe (
    run_requests 9 0
      (record running {
        processes =
            record terminal { requests = clear ∷ [] } ∷ record window { requests = kill ∷ [] } ∷ [];
      })
      (λ id. starting window (point (pos 1024) (pos 768)) 0x6000 bar draw draw))
run_requests-IsSafe_example =
    run_requests-IsSafe 9 0 _
      (λ id. starting window (point (pos 1024) (pos 768)) 0x6000 bar draw draw) (λ id. bar-Loyal.0)
      (λ id. bar-Loyal.1) asking-IsValid

-- A window that the mouse pulls over the left and the lower edge.
