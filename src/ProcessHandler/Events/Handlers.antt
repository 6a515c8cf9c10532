-- ===== src/ProcessHandler/Events/Handlers.antt =====
-- The handlers of the three interrupts keep the process handler valid.
use electric_os.Base.{
  ℕ, suc, ◌≤◌, ◌<◌, length, Bool, true, false, List, [], ◌∷◌, map, ◌==◌, if◌then◌else◌, Option,
  none, some, refl, arith, ◌>>=◌, if_both,
}
use electric_os.Stl.Point.{Point, add_point, sub_point}
use electric_os.Input.KeyBoard.{KeyBoard, get_key_press}
use electric_os.Input.Mouse.{Mouse}
use electric_os.ProcessHandler.{Process, Request, Handler, push_request, set_pos, minimize, get}
use electric_os.ProcessHandler.Depth.{count, get_total}
use electric_os.ProcessHandler.Invariant.{Points, IsValid, kill_process-IsValid}
use electric_os.ProcessHandler.Events.{
  Reaction, released, set_focused_process, deref, send_message, key_to, keyboard_interrupt,
  pit_interrupt, Hit, close_button, minimize_button, frame, window, nothing, hit, first_hit,
  find_hit, on_hit, no_window_moves, follow, mouse_interrupt,
}
use electric_os.ProcessHandler.Events.Recount.{
  IsValid-SameCounts, map-SameCounts, Succeeds, deref-Succeeds,
}
use electric_os.ProcessHandler.Events.Interrupts.{
  push_request-Keeps, set_pos-Keeps, minimize-Keeps, retarget, set_focused_process-Succeeds,
  send_message-some, Loyal, NoFewer, Points-get, messaged, messaged-IsValid,
}

-- There is a result, and the process handler in it is valid.
abbrev pub SucceedsWith : {A : Type 0} → Option (Handler × A) → Type 0
SucceedsWith none = ⊥
SucceedsWith (some (s, a)) = IsValid s

with_result :
    {A : Type 0} (o : Option Handler) (a : A) → Succeeds o → SucceedsWith (do s ← o; some (s, a))
with_result none a h = h
with_result (some s) a h = h

send_message-Succeeds :
    (s : Handler) (id : ℕ) (r : Reaction)
    → Loyal r
    → IsValid s
    → Points s.processes (some id)
    → Succeeds (send_message s id r)
send_message-Succeeds s id r loyal v here =
    let (t, is, u, there, long) = send_message-some s id r loyal v here in rw is u

-- In a valid state, and where the program that gets it does not kill its own process and keeps the
-- invariant, a key meets no dangling pointer and leaves a valid state.
pub keyboard_interrupt-IsValid :
    (s : Handler) (k : KeyBoard) (r : Reaction)
    → Loyal r
    → IsValid s
    → SucceedsWith (keyboard_interrupt s k r)
unfolding keyboard_interrupt
keyboard_interrupt-IsValid s k r loyal v = to s.focused v.focused
  where
    to : (o : Option ℕ) → Points s.processes o → SucceedsWith (key_to s k r o)
    to none h = v
    to (some id) h =
        with_result (send_message s id r) (get_key_press k).0
          (send_message-Succeeds s id r loyal v h)

-- A tick leaves a valid state.
pub pit_interrupt-IsValid :
    (s : Handler) (replies : ℕ → Request) → IsValid s → IsValid (pit_interrupt s replies)
unfolding pit_interrupt
pit_interrupt-IsValid s replies v =
    let u =
      IsValid-SameCounts s _
        (map-SameCounts (λ p. push_request p (replies p.id)) s.processes
          (push_request-Keeps (λ p. replies p.id)))
        v in
    retarget (record s { processes = map (λ p. push_request p (replies p.id)) s.processes }) _ u
      refl refl u.focused u.moving

-- What the mouse meets is a process of the list, at an index of it.
abbrev HitIn : List Process → Option (ℕ × Process × Hit) → Type 0
HitIn ps none = Unit
HitIn ps (some (i, p, h)) = (i < length ps) × (1 ≤ count (λ q. q.id == p.id) ps)

find_hit-HitIn : (ps : List Process) (m : Mouse) → HitIn ps (find_hit ps m)
unfolding find_hit count
find_hit-HitIn [] m = tt
find_hit-HitIn (p ∷ ps) m = later (find_hit ps m) (find_hit-HitIn ps m)
  where
    first : (h : Hit) → HitIn (p ∷ ps) (first_hit p h)
    first close_button = (omega arith, ground arith)
    first minimize_button = (omega arith, ground arith)
    first frame = (omega arith, ground arith)
    first window = (omega arith, ground arith)
    first nothing = tt

    later :
        (o : Option (ℕ × Process × Hit))
        → HitIn ps o
        → HitIn
            (p ∷ ps)
            (elim o [ none ↦ first_hit p (hit p m) | some (i, q, h) ↦ some (suc i, q, h) ])
    later none h = first (hit p m)
    later (some (i, q, r)) (inside, there) = (omega arith, omega arith)

module _ (m : Mouse) (screen : Point) (r : Reaction) (loyal : Loyal r) (no_fewer : NoFewer r) where
  refocus-Succeeds :
      (t : Handler) (i : ℕ)
      → IsValid t
      → i < length t.processes
      → Succeeds (do q ← get t.processes i; set_focused_process t q.id)
  refocus-Succeeds t i u inside =
      let (q, at) = get_total t.processes i inside in
      rw at (set_focused_process-Succeeds t q.id u (Points-get t i q u at))

  on_hit-Succeeds :
      (s : Handler) (i : ℕ) (p : Process) (h : Hit)
      → IsValid s
      → i < length s.processes
      → Points s.processes (some p.id)
      → Succeeds (on_hit s m screen r i p h)
  unfolding on_hit
  on_hit-Succeeds s i p close_button v inside here = kill_process-IsValid s p.id v
  on_hit-Succeeds s i p minimize_button v inside here =
      deref-Succeeds (record s { redraw = true }) p.id (λ q. minimize q screen)
        (retarget s _ v refl refl v.focused v.moving) here (minimize-Keeps screen)
  on_hit-Succeeds s i p frame v inside here =
      set_focused_process-Succeeds
        (record s { moving = some p.id; moving_delta = sub_point p.position m.position }) p.id
        (retarget s _ v refl refl v.focused here) here
  on_hit-Succeeds s i p window v inside here =
      let (t, is, u, there, long) = send_message-some s p.id r loyal v here in
      let more = no_fewer (messaged s p.id) p.id refl (messaged-IsValid s p.id v) here in
      rw is (if_both Succeeds m.left_held (refocus-Succeeds t i u (omega arith)) u)
  on_hit-Succeeds s i p nothing v inside here = v

  follow-Succeeds :
      (s : Handler) (o : Option ℕ)
      → IsValid s
      → Points s.processes o
      → Succeeds (follow s m screen r o)
  follow-Succeeds s none v h = met (find_hit s.processes m) (find_hit-HitIn s.processes m)
    where
      met :
          (o : Option (ℕ × Process × Hit))
          → HitIn s.processes o
          → Succeeds (no_window_moves s m screen r o)
      met none h = v
      met (some (i, p, h)) (inside, there) =
          let once = v.ids p.id in on_hit-Succeeds s i p h v inside (omega arith)
  follow-Succeeds s (some id) v h = with_button m.left_held
    where
      place : Process → Process
      place q = set_pos q screen (add_point m.position s.moving_delta)

      with_button :
          (b : Bool)
          → Succeeds (
              deref
                (if b
                  then record s { redraw = true }
                  else record s { redraw = true; focused = some id; moving = none })
                id
                place)
      with_button true =
          deref-Succeeds (record s { redraw = true }) id place
            (retarget s _ v refl refl v.focused v.moving) h (set_pos-Keeps screen _)
      with_button false =
          deref-Succeeds (record s { redraw = true; focused = some id; moving = none }) id place
            (retarget s _ v refl refl h tt) h (set_pos-Keeps screen _)

  -- In a valid state, the mouse meets no dangling pointer and leaves a valid state, too, where no
  -- fewer processes are left.
  pub mouse_interrupt-IsValid :
      (s : Handler) → IsValid s → SucceedsWith (mouse_interrupt s m screen r)
  unfolding mouse_interrupt
  mouse_interrupt-IsValid s v =
      with_result (follow s m screen r s.moving) (released m)
        (follow-Succeeds s s.moving v v.moving)
