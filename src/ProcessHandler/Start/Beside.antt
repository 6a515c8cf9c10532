-- ===== src/ProcessHandler/Start/Beside.antt =====
-- Starting a program that is not full screen keeps every process that runs.
use electric_os.Base.{
  ℕ, ◌+◌, ◌≤◌, true, false, List, [], ◌∷◌, length, ◌==◌, some, ◌≡◌, refl, arith, ap, ◌∙◌,
}
use electric_os.Stl.Point.{Point}
use electric_os.ProcessHandler.{
  Process, Request, ProcessInfo, Handler, is_fullscreen, is_minimized, find_procedure, add_process,
  start_process,
}
use electric_os.ProcessHandler.Depth.{count}
use electric_os.ProcessHandler.Invariant.{Points, IsValid}
use electric_os.ProcessHandler.Start.{placed, bump, Points-more}
use electric_os.ProcessHandler.Start.Construct.{new_process-Made}

count-length : (ps : List Process) → count (λ q. true) ps ≡ length ps
unfolding count
count-length [] = refl
count-length (p ∷ ps) = omega (arith, count-length ps)

pub start_process-beside :
    (s : Handler) (fresh : Process) (screen : Point) (procedure : ℕ) (info : ProcessInfo)
    (reply : Request)
    → IsValid s
    → find_procedure s.processes procedure ≡ false
    → is_minimized info.type ≡ false
    → is_fullscreen info.type ≡ false
    → info.depth ≤ length s.processes
    → (h : Handler) × (id : ℕ) × (start_process s fresh screen procedure info reply ≡ some (h, id))
      × ((k : ℕ) → Points s.processes (some k) → Points h.processes (some k))
      × (length h.processes ≡ length s.processes + 1)
unfolding start_process add_process
start_process-beside s fresh screen procedure info reply valid new_program shown windowed fits =
    let (p, e, made) = new_process-Made s fresh screen procedure info reply shown fits in
    let beside : is_fullscreen p.type ≡ false = ap is_fullscreen made.type ∙ windowed in
    let at = made.depth in
    let (qs, there, counts) = placed (bump s) p (omega arith) in
    let numbered = made.id in
    let unused = valid.given p.id (omega arith) in
    let more = counts (λ q. true) (λ p d. refl) in
    let before = count-length s.processes in
    let after = count-length qs in
    (
      record (bump s) { processes = qs },
      p.id,
      rw (new_program, e, beside, there) refl,
      λ k h.
          Points-more s.processes qs p.id (some k) unused
            (λ j. counts (λ q. q.id == j) (λ p d. refl)) h,
      omega arith,
    )
