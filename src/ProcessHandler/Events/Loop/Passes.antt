-- ===== src/ProcessHandler/Events/Loop/Passes.antt =====
-- A pass of the main loop: it is safe, and ends where no program starts or kills another.
use electric_os.Base.{
  ℕ, zero, suc, ◌+◌, ◌≤◌, ◌<◌, Bool, true, false, List, [], ◌∷◌, length, ltb, Option, none, some,
  ◌≡◌, refl, arith, ap, if_both, subst, Bool-cases, inl, inr, ◌∙◌,
}
use electric_os.ProcessHandler.{
  Process, Request, success, reset, clear, draw, kill, Handler, pop_request, erase, kill_found,
  kill_process, kill_all_processes, find_index,
}
use electric_os.ProcessHandler.Depth.{Found, find_index-Found, get_total}
use electric_os.ProcessHandler.Invariant.{Points, IsValid, kill_process-IsValid}
use electric_os.ProcessHandler.Events.{Reaction, update_process, send_message}
use electric_os.ProcessHandler.Events.Recount.{
  Points-SameCounts, IsValid-SameCounts, update_process-SameCounts, length-update_process,
}
use electric_os.ProcessHandler.Events.Interrupts.{
  Loyal, NoFewer, AsMany, messaged, messaged-IsValid, Points-get, pop_request-Keeps, retarget,
  send_message-some,
}
use electric_os.ProcessHandler.Events.Loop.{
  covered, update_all, update_at, Served, next_at, all_killed, fault, redrawn, serve_request, serve,
  Pass, finished, restarted, lost, out_of_fuel, run_requests,
}

-- A pass that ends in a valid state, or that starts anew without processes.
unfoldable pub Ends : Pass → Type 0
Ends (finished s) = IsValid s
Ends (restarted s) = s.processes ≡ []
Ends lost = ⊥
Ends out_of_fuel = ⊥

-- A pass that meets no process that is gone and no index behind the list.
unfoldable pub IsSafe : Pass → Type 0
IsSafe (finished s) = IsValid s
IsSafe (restarted s) = s.processes ≡ []
IsSafe lost = ⊥
IsSafe out_of_fuel = Unit

-- A request served leaves a valid state and, where `Steady`, fewer places to go, or no processes; it
-- meets no fault, where `Whole`.
Advances : Type 0 → Type 0 → Handler → ℕ → Served → Type 0
Advances Whole Steady s i (next_at j t) =
    IsValid t
    × (j ≤ length t.processes)
    × (Steady → length t.processes + i < length s.processes + j)
Advances Whole Steady s i (all_killed t) = t.processes ≡ []
Advances Whole Steady s i fault = ¬ Whole

length-erase : (ps : List Process) (i : ℕ) → i < length ps → suc (length (erase ps i)) ≡ length ps
unfolding erase
length-erase [] i h = absurd (omega arith)
length-erase (p ∷ ps) zero h = refl
length-erase (p ∷ ps) (suc i) h = ap suc (length-erase ps i (omega arith))

shift :
    (Whole Steady : Type 0) (s t : Handler) (i : ℕ) (o : Served)
    → length s.processes ≡ length t.processes
    → Advances Whole Steady s i o
    → Advances Whole Steady t i o
unfolding Advances
shift Whole Steady s t i (next_at j u) e (v, within, less) =
    (v, within, λ steady. let l = less steady in omega arith)
shift Whole Steady s t i (all_killed u) e h = h
shift Whole Steady s t i fault e h = h

length-kill_process :
    (s : Handler) (id : ℕ)
    → Points s.processes (some id)
    → suc (length (kill_process s id).0.processes) ≡ length s.processes
unfolding kill_process Found
length-kill_process s id here = found (find_index s.processes id) (find_index-Found s.processes id)
  where
    found :
        (o : Option ℕ)
        → Found s.processes id o
        → suc (length (kill_found s id o).0.processes) ≡ length s.processes
    found none f = absurd (omega (arith, f))
    found (some i) (p, at, same, inside) = length-erase s.processes i inside

update_at_lem :
    (s : Handler) (i : ℕ)
    → IsValid s
    → IsValid (update_at s i) × ((update_at s i).processes ≡ s.processes)
unfolding update_at
update_at_lem s i v =
    if_both (λ (t : Handler). IsValid t × (t.processes ≡ s.processes)) (covered s.processes i)
      {x = record s { redraw = true }} {y = record s { buffer_swap = true }}
      (retarget s _ v refl refl v.focused v.moving, refl)
      (retarget s _ v refl refl v.focused v.moving, refl)

module _ (replies : ℕ → Reaction) (loyal : (id : ℕ) → Loyal (replies id)) where
  abbrev Whole : Type 0
  Whole = (id : ℕ) → NoFewer (replies id)

  abbrev Steady : Type 0
  Steady = (id : ℕ) → AsMany (replies id)

  redrawn-Advances :
      (s : Handler) (i id : ℕ)
      → IsValid s
      → Points s.processes (some id)
      → i < length s.processes
      → Advances Whole Steady s i (redrawn i (send_message s id (replies id)))
  unfolding Advances
  redrawn-Advances s i id v here small =
      let (t, is, u, there, long) = send_message-some s id (replies id) (loyal id) v here in
      let (good, same) = update_at_lem t i u in
      let drawn = ap length same in
      let kept : Steady → length t.processes ≡ length s.processes =
        λ steady. long ∙ steady id (messaged s id) id refl (messaged-IsValid s id v) here in
      rw is (elim (Bool-cases (ltb i (length t.processes))) [
        | inl e ↦ rw e (good, ground arith, λ steady. let k = kept steady in omega arith)
        | inr e ↦ rw e (λ whole.
            let k = whole id (messaged s id) id refl (messaged-IsValid s id v) here in ground arith)
      ])

  serve_request-Advances :
      (s : Handler) (i id : ℕ) (r : Request)
      → IsValid s
      → Points s.processes (some id)
      → i < length s.processes
      → Advances Whole Steady s i (serve_request s i id replies r)
  unfolding Advances kill_all_processes
  serve_request-Advances s i id clear v here small = redrawn-Advances s i id v here small
  serve_request-Advances s i id draw v here small = redrawn-Advances s i id v here small
  serve_request-Advances s i id kill v here small =
      let u = kill_process-IsValid s id v in
      let fewer = length-kill_process s id here in
      (
        retarget (kill_process s id).0 _ u refl refl u.focused u.moving,
        omega arith,
        λ steady. omega arith,
      )
  serve_request-Advances s i id reset v here small = refl
  serve_request-Advances s i id success v here small = (v, omega arith, λ steady. omega arith)

  serve-Advances :
      (s : Handler) (i : ℕ)
      → IsValid s
      → i < length s.processes
      → Advances Whole Steady s i (serve s i replies)
  unfolding serve Advances
  serve-Advances s i v small =
      let (p, at) = get_total s.processes i small in
      let pop : Process → Process = λ q. (pop_request q).0 in
      let popped = update_process-SameCounts pop p.id s.processes pop_request-Keeps in
      let here = Points-get s i p v at in
      let same = length-update_process s.processes p.id pop in
      let t = record s { processes = update_process s.processes p.id pop } in
      rw at (
        shift Whole Steady t s i _ same (
          serve_request-Advances t i p.id (pop_request p).1 (IsValid-SameCounts s _ popped v)
            (Points-SameCounts s.processes _ (some p.id) popped here) (omega arith)))

  -- What the pass makes of a request served, where the rest of the pass ends.
  served-Ends :
      (fuel i : ℕ) (s : Handler) (o : Served)
      → Steady
      → ((j : ℕ) (t : Handler)
          → IsValid t
          → length t.processes + i < length s.processes + j
          → j ≤ length t.processes
          → Ends (run_requests fuel j t replies))
      → Advances Whole Steady s i o
      → Ends (elim o [
        | next_at j s' ↦ run_requests fuel j s' replies
        | all_killed s' ↦ restarted s'
        | fault ↦ lost
      ])
  unfolding Ends Advances
  served-Ends fuel i s (next_at j t) steady rest (u, within, less) = rest j t u (less steady) within
  served-Ends fuel i s (all_killed t) steady rest e = e
  served-Ends fuel i s fault steady rest e = e (λ id h k l v p. omega (arith, steady id h k l v p))

  -- The same for a pass that may run out of fuel.
  served-IsSafe :
      (fuel i : ℕ) (s : Handler) (o : Served)
      → Whole
      → ((j : ℕ) (t : Handler) → IsValid t → IsSafe (run_requests fuel j t replies))
      → Advances Whole Steady s i o
      → IsSafe (elim o [
        | next_at j s' ↦ run_requests fuel j s' replies
        | all_killed s' ↦ restarted s'
        | fault ↦ lost
      ])
  unfolding IsSafe Advances
  served-IsSafe fuel i s (next_at j t) whole rest (u, within, less) = rest j t u
  served-IsSafe fuel i s (all_killed t) whole rest e = e
  served-IsSafe fuel i s fault whole rest e = e whole

  pass-IsSafe :
      (fuel i : ℕ) (s : Handler) → Whole → IsValid s → IsSafe (run_requests fuel i s replies)
  unfolding run_requests IsSafe
  pass-IsSafe zero i s whole v = tt
  pass-IsSafe (suc fuel) i s whole v = round (ltb i (length s.processes)) refl (λ small.
      served-IsSafe fuel i s _ whole (λ j t u. pass-IsSafe fuel j t whole u)
        (serve-Advances s i v (ground arith)))
    where
      next : Pass
      next = elim (serve s i replies) [
        | next_at j s' ↦ run_requests fuel j s' replies
        | all_killed s' ↦ restarted s'
        | fault ↦ lost
      ]

      round :
          (b : Bool)
          → ltb i (length s.processes) ≡ b
          → (ltb i (length s.processes) ≡ true → IsSafe next)
          → IsSafe (elim b [ false ↦ finished s | true ↦ next ])
      round false e more = v
      round true e more = more e

  pass-Ends :
      (fuel i : ℕ) (s : Handler)
      → Steady
      → IsValid s
      → i ≤ length s.processes
      → length s.processes < fuel + i
      → Ends (run_requests fuel i s replies)
  unfolding run_requests Ends
  pass-Ends zero i s steady v inside enough = absurd (omega arith)
  pass-Ends (suc fuel) i s steady v inside enough =
      let rest : (j : ℕ) (t : Handler)
          → IsValid t
          → length t.processes + i < length s.processes + j
          → j ≤ length t.processes
          → Ends (run_requests fuel j t replies) =
        λ j t u less within. pass-Ends fuel j t steady u within (omega arith) in
      round (ltb i (length s.processes)) refl
        (λ small. served-Ends fuel i s _ steady rest (serve-Advances s i v (ground arith)))
    where
      next : Pass
      next = elim (serve s i replies) [
        | next_at j s' ↦ run_requests fuel j s' replies
        | all_killed s' ↦ restarted s'
        | fault ↦ lost
      ]

      round :
          (b : Bool)
          → ltb i (length s.processes) ≡ b
          → (ltb i (length s.processes) ≡ true → Ends next)
          → Ends (elim b [ false ↦ finished s | true ↦ next ])
      round false e more = v
      round true e more = more e

-- In a valid state, for programs that while they are messaged do not kill their own process,
-- keep the invariant and leave as many processes, and with more fuel than there are processes, a
-- pass of the main loop ends: in a valid state, or with no processes where one asked for RESET.
-- It never meets a process that is gone or an index behind the list.
pub run_requests-Ends :
    (fuel : ℕ) (s : Handler) (replies : ℕ → Reaction)
    → ((id : ℕ) → Loyal (replies id))
    → ((id : ℕ) → AsMany (replies id))
    → IsValid s
    → length s.processes < fuel
    → Ends (run_requests fuel 0 s replies)
run_requests-Ends fuel s replies loyal steady v enough =
    pass-Ends replies loyal fuel 0 s steady v (omega arith) (omega arith)

-- In a valid state, for programs that while they are messaged do not kill their own process,
-- keep the invariant and do not leave fewer processes, whatever they start, and with any fuel: a
-- pass of the main loop from any index meets no process that is gone and no index behind the
-- list; where it ends, it does so in a valid state, or with no processes where one asked for
-- RESET.
pub run_requests-IsSafe :
    (fuel i : ℕ) (s : Handler) (replies : ℕ → Reaction)
    → ((id : ℕ) → Loyal (replies id))
    → ((id : ℕ) → NoFewer (replies id))
    → IsValid s
    → IsSafe (run_requests fuel i s replies)
run_requests-IsSafe fuel i s replies loyal whole v = pass-IsSafe replies loyal fuel i s whole v

-- A round and the update of the screen, on their own.
pub serve-IsValid :
    (s t : Handler) (i j : ℕ) (replies : ℕ → Reaction)
    → ((id : ℕ) → Loyal (replies id))
    → IsValid s
    → i < length s.processes
    → serve s i replies ≡ next_at j t
    → IsValid t
unfolding Advances
serve-IsValid s t i j replies loyal v small e =
    (subst (Advances ((id : ℕ) → NoFewer (replies id)) ((id : ℕ) → AsMany (replies id)) s i) e
      (serve-Advances replies loyal s i v small)).0

pub update_all-IsValid : (s : Handler) → IsValid s → IsValid (update_all s)
unfolding update_all
update_all-IsValid s v =
    if_both IsValid s.redraw (retarget s _ v refl refl v.focused v.moving)
      (retarget s _ v refl refl v.focused v.moving)
