-- ===== src/ProcessHandler/Events/Suicide.antt =====
-- A program that runs `suicide` while it is messaged.
use electric_os.Base.{ℕ, ◌==◌, List, [], ◌∷◌, none, some, ◌≡◌, refl, arith}
use electric_os.ProcessHandler.{Process, Request, Handler, kill_process}
use electric_os.ProcessHandler.Depth.{count}
use electric_os.ProcessHandler.Invariant.{Points, IsValid, kill_process_lem}
use electric_os.ProcessHandler.Events.{Reaction, find_process, send_message}
use electric_os.ProcessHandler.Events.Recount.{find_process-some}
use electric_os.ProcessHandler.Events.Interrupts.{retarget}
use electric_os.System.{suicide_command}

find_process-none :
    (ps : List Process) (id : ℕ) → count (λ p. p.id == id) ps ≡ 0 → find_process ps id ≡ none
unfolding find_process count
find_process-none [] id h = refl
find_process-none (p ∷ ps) id h = ground (arith, find_process-none ps id)

-- The program's answer to a message that runs `suicide`.
abbrev pub suicidal : Request → Reaction
suicidal reply = record { acts = suicide_command; reply = reply }

-- In a valid state, where the program of a process in the list runs `suicide` while it is
-- messaged, the state without that process is valid, but `SendMessage` goes on to use the
-- process that is gone.
pub send_message-suicide :
    (s : Handler) (id : ℕ) (reply : Request)
    → IsValid s
    → Points s.processes (some id)
    → IsValid (suicide_command (record s { last_messaged = some id }))
      × (send_message s id (suicidal reply) ≡ none)
unfolding send_message suicide_command
send_message-suicide s id reply v here =
    let a = record s { last_messaged = some id } in
    let (w, gone) = kill_process_lem a id (retarget s a v refl refl v.focused v.moving) in
    let (p, found, same) = find_process-some s.processes id (omega arith) in
    let lost = find_process-none (kill_process a id).0.processes id gone in
    (w, rw (found, lost) refl)
