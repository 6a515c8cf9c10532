-- ===== src/ProcessHandler/Events/Starting.antt =====
-- A program that starts another one while it is messaged, as the desktop does when it is drawn.
use electric_os.Base.{
  ℕ, ◌≤◌, true, false, length, none, some, ◌≡◌, ◌==◌, refl, arith, Bool-cases, inl, inr,
}
use electric_os.Stl.Point.{Point}
use electric_os.ProcessHandler.{
  Process, Request, ProcessInfo, Handler, is_fullscreen, is_minimized, find_procedure,
  start_process,
}
use electric_os.ProcessHandler.Invariant.{Points, IsValid}
use electric_os.ProcessHandler.Start.{start_process-Started, Started-IsValid}
use electric_os.ProcessHandler.Start.Beside.{start_process-beside}
use electric_os.ProcessHandler.Events.{Reaction}
use electric_os.ProcessHandler.Events.Recount.{count-le-length}
use electric_os.ProcessHandler.Events.Interrupts.{Loyal, NoFewer}

module _ (fresh : Process) (screen : Point) (procedure : ℕ) (info : ProcessInfo)
    (reply : Request) where
  abbrev pub started : Handler → Handler
  started s = elim (start_process s fresh screen procedure info reply) [
    | none ↦ s
    | some (h, id) ↦ h
  ]

  abbrev pub starting : Request → Reaction
  starting answer = record { acts = started; reply = answer }

  -- What starting leaves: a valid state with the same processes, and maybe one more.
  Kept : Handler → ℕ → Handler → Type 0
  Kept s id h = IsValid h × Points h.processes (some id) × (length s.processes ≤ length h.processes)

  started-Kept :
      (s : Handler) (id : ℕ)
      → is_minimized info.type ≡ false
      → is_fullscreen info.type ≡ false
      → info.depth ≤ 1
      → IsValid s
      → Points s.processes (some id)
      → Kept s id (started s)
  unfolding Kept
  started-Kept s id shown windowed low v here =
      elim (Bool-cases (find_procedure s.processes procedure)) [
        | inl e ↦ let same = runs e in rw (started, same) (v, here, omega arith)
        | inr e ↦
            let some_one = count-le-length (λ q. q.id == id) s.processes in
            let (h, k, is, stay, more) =
              start_process-beside s fresh screen procedure info reply v e shown windowed
                (omega arith) in
            let good = Started-IsValid s h procedure k _ is (
              start_process-Started s fresh screen procedure info reply v e shown
                (rw windowed (omega arith))) in
            rw (started, is) (good, stay id here, omega arith)
      ]
    where
      runs :
          find_procedure s.processes procedure ≡ true
          → start_process s fresh screen procedure info reply ≡ some (s, 0)
      runs e = unfold start_process in rw e refl

  -- A program that starts one that is not full screen, is not minimized and asks for a depth of 1 at
  -- most stays, and keeps the invariant and every process.
  pub starting-Loyal :
      (answer : Request)
      → is_minimized info.type ≡ false
      → is_fullscreen info.type ≡ false
      → info.depth ≤ 1
      → Loyal (starting answer) × NoFewer (starting answer)
  unfolding Kept
  starting-Loyal answer shown windowed low = (
    record {
      valid = λ s id e v here. (started-Kept s id shown windowed low v here).0;
      stays = λ s id e v here. (started-Kept s id shown windowed low v here).1;
    },
    λ s id e v here. (started-Kept s id shown windowed low v here).2,
  )
