-- ===== src/ProcessHandler/Events/Loop.antt =====
-- src/ProcessHandler/ProcessHandler.cpp and Compositor.cpp: one pass of the main loop.
pub mod Passes
use electric_os.Base.{
  ◌>>=◌, ℕ, zero, suc, ◌+◌, Bool, true, false, not, ◌&&◌, ◌||◌, List, [], ◌∷◌, length, ltb, ◌==◌,
  if◌then◌else◌, Option, none, some,
}
use electric_os.Base.Int.{ℤ, ◌+ℤ◌, ltb_ℤ}
use electric_os.Stl.Point.{Point}
use electric_os.ProcessHandler.{
  Process, Request, success, reset, clear, draw, kill, ProcessInfo, Handler, pop_request, get,
  kill_process, kill_all_processes, start_process,
}
use electric_os.ProcessHandler.Events.{Reaction, get_size, update_process, send_message}

-- `Contains` of another process
pub overlaps : Process → Process → Bool
overlaps p q =
    not (ltb_ℤ (q.position.x +ℤ (get_size q).x) p.position.x)
    && not (ltb_ℤ (p.position.x +ℤ (get_size p).x) q.position.x)
    && not (ltb_ℤ (q.position.y +ℤ (get_size q).y) p.position.y)
    && not (ltb_ℤ (p.position.y +ℤ (get_size p).y) q.position.y)

pub any_overlap : Process → List Process → Bool
any_overlap p [] = false
any_overlap p (q ∷ qs) = overlaps p q || any_overlap p qs

-- Whether a process above the one at the index overlaps it.
pub covered : List Process → ℕ → Bool
covered [] i = false
covered (p ∷ ps) zero = any_overlap p ps
covered (p ∷ ps) (suc i) = covered ps i

-- `Compositor::Update(i)`
pub update_at : Handler → ℕ → Handler
update_at s i =
    if covered s.processes i then record s { redraw = true } else record s { buffer_swap = true }

-- `Compositor::Update()`
pub update_all : Handler → Handler
update_all s =
    if s.redraw
    then record s { redraw = false; buffer_swap = false }
    else record s { buffer_swap = false }

-- What serving one request leads to: the index of the next round, a restart, or a lost object or an
-- index behind the list.
pub data Served : Type 0 where
  next_at : ℕ → Handler → Served
  all_killed : Handler → Served
  fault : Served

abbrev pub redrawn : ℕ → Option Handler → Served
redrawn i none = fault
redrawn i (some s) = if ltb i (length s.processes) then next_at (i + 1) (update_at s i) else fault

-- The cases of the loop, for the request of the process `id` at the index `i`, where the process of
-- an ID reacts by `replies`.
abbrev pub serve_request : Handler → ℕ → ℕ → (ℕ → Reaction) → Request → Served
serve_request s i id replies clear = redrawn i (send_message s id (replies id))
serve_request s i id replies draw = redrawn i (send_message s id (replies id))
serve_request s i id replies kill = next_at i (record (kill_process s id).0 { redraw = true })
serve_request s i id replies reset = all_killed (kill_all_processes s)
serve_request s i id replies success = next_at (i + 1) s

abbrev pub serve_found : Handler → ℕ → (ℕ → Reaction) → Option Process → Served
serve_found s i replies none = fault
serve_found s i replies (some p) =
    serve_request
      (record s { processes = update_process s.processes p.id (λ q. (pop_request q).0) }) i p.id
      replies (pop_request p).1

pub serve : Handler → ℕ → (ℕ → Reaction) → Served
serve s i replies = serve_found s i replies (get s.processes i)

pub data Pass : Type 0 where
  finished : Handler → Pass
  restarted : Handler → Pass
  lost : Pass
  out_of_fuel : Pass

-- The loop over the processes from the index `i` on. A killed process makes room for the next one.
pub run_requests : ℕ → ℕ → Handler → (ℕ → Reaction) → Pass
run_requests zero i s replies = out_of_fuel
run_requests (suc fuel) i s replies = elim (ltb i (length s.processes)) [
  | false ↦ finished s
  | true ↦ elim (serve s i replies) [
    | next_at j s' ↦ run_requests fuel j s' replies
    | all_killed s' ↦ restarted s'
    | fault ↦ lost
  ]
]

-- What the pass ends with: the screen, and a terminal where no process is left.
pub end_pass : Handler → Process → Point → ℕ → ProcessInfo → Request → Option Handler
end_pass s fresh screen tty info reply =
    let s1 = update_all s in
    elim s1.processes [
      | [] ↦ do
        (s2, id) ← start_process s1 fresh screen tty info reply
        p ← get s2.processes 0
        some (record s2 { focused = some p.id })
      | q ∷ qs ↦ some s1
    ]
