-- ===== src/ProcessHandler/Events/Interrupts.antt =====
-- The interrupts keep the process handler valid.
use electric_os.Base.{
  ℕ, ◌-◌, ◌≤◌, ap, Bool, true, false, not, ◌&&◌, ltb, ◌||◌, List, [], ◌∷◌, length, ◌==◌,
  if◌then◌else◌, Option, none, some, ◌≡◌, refl, arith, if_both, ◌>>=◌,
}
use electric_os.Stl.Point.{Point}
use electric_os.ProcessHandler.{
  Process, ProcessType, fullscreen, windowed, frameless_window, minimized, Request, success,
  Handler, is_fullscreen, push_request, pop_request, pop_top, is_minimized, is_success, set_pos,
  minimize, minimized_type, set_depth, get,
}
use electric_os.ProcessHandler.Invariant.{Points, IsValid}
use electric_os.ProcessHandler.Depth.{count-erase, one}
use electric_os.ProcessHandler.Events.{
  Reaction, update_process, send_message, is_windowed, was_windowed, set_focused_process,
}
use electric_os.ProcessHandler.Events.Recount.{
  Keeps, Points-SameCounts, IsValid-SameCounts, update_process-SameCounts, find_process-some,
  Succeeds, set_depth-SameCounts, count-le-length, length-update_process,
}

push_keeps :
    (p : Process) (r : Request)
    → ((push_request p r).id ≡ p.id)
      × ((push_request p r).procedure ≡ p.procedure)
      × (is_fullscreen (push_request p r).type ≡ is_fullscreen p.type)
unfolding push_request
push_keeps p r =
    if_both
      (λ (q : Process).
        (q.id ≡ p.id) × (q.procedure ≡ p.procedure) × (is_fullscreen q.type ≡ is_fullscreen p.type))
      (not (is_minimized p.type) && not (is_success r) && ltb (length p.requests) 16)
      {x = record p { requests = r ∷ p.requests }} {y = p} (refl, refl, refl) (refl, refl, refl)

pub push_request-Keeps : (replies : Process → Request) → Keeps (λ p. push_request p (replies p))
push_request-Keeps replies = record {
  same_id = λ p. (push_keeps p (replies p)).0;
  same_procedure = λ p. (push_keeps p (replies p)).1;
  same_screen = λ p. (push_keeps p (replies p)).2;
}

pop_keeps :
    (p : Process)
    → ((pop_request p).0.id ≡ p.id)
      × ((pop_request p).0.procedure ≡ p.procedure)
      × (is_fullscreen (pop_request p).0.type ≡ is_fullscreen p.type)
unfolding pop_request
pop_keeps p =
    if_both
      (λ (r : Process × Request).
        (r.0.id ≡ p.id)
        × (r.0.procedure ≡ p.procedure)
        × (is_fullscreen r.0.type ≡ is_fullscreen p.type))
      (is_minimized p.type) {x = (p, success)} {y = pop_top p p.requests} (refl, refl, refl)
      (top p.requests)
  where
    top :
        (rs : List Request)
        → ((pop_top p rs).0.id ≡ p.id)
          × ((pop_top p rs).0.procedure ≡ p.procedure)
          × (is_fullscreen (pop_top p rs).0.type ≡ is_fullscreen p.type)
    top [] = (refl, refl, refl)
    top (r ∷ rs) = (refl, refl, refl)

pub pop_request-Keeps : Keeps (λ p. (pop_request p).0)
pop_request-Keeps = record {
  same_id = λ p. (pop_keeps p).0;
  same_procedure = λ p. (pop_keeps p).1;
  same_screen = λ p. (pop_keeps p).2;
}

pub set_pos-Keeps : (screen : Point) (at : Point) → Keeps (λ p. set_pos p screen at)
unfolding set_pos
set_pos-Keeps screen at = record {
  same_id = λ p. refl;
  same_procedure = λ p. refl;
  same_screen = λ p. refl;
}

same_screen-minimized : (t : ProcessType) → is_fullscreen (minimized_type t) ≡ is_fullscreen t
same_screen-minimized fullscreen = refl
same_screen-minimized windowed = refl
same_screen-minimized frameless_window = refl
same_screen-minimized minimized = refl

pub minimize-Keeps : (screen : Point) → Keeps (λ p. minimize p screen)
unfolding minimize set_pos
minimize-Keeps screen = record {
  same_id = λ p. refl;
  same_procedure = λ p. refl;
  same_screen = λ p. same_screen-minimized p.type;
}

-- The pointers may be set to null or to processes of the list, and the other fields to anything.
pub retarget :
    (s t : Handler)
    → IsValid s
    → t.processes ≡ s.processes
    → t.new_id ≡ s.new_id
    → Points s.processes t.focused
    → Points s.processes t.moving
    → IsValid t
retarget s t v e n f m = record {
  ids = λ k. rw (e) (v.ids k);
  programs = λ a. rw (e) (v.programs a);
  screens = rw (e) (v.screens);
  given = λ k h. rw (e) (v.given k (omega arith));
  focused = rw (e) f;
  moving = rw (e) m;
}

-- The focus goes to a process of the list, so it succeeds and leaves a valid state.
pub set_focused_process-Succeeds :
    (s : Handler) (id : ℕ)
    → IsValid s
    → Points s.processes (some id)
    → Succeeds (set_focused_process s id)
unfolding set_focused_process
set_focused_process-Succeeds s id v here =
    let (p, found, same) = find_process-some s.processes id (omega arith) in
    let (old, was) = was s.focused v.focused in
    rw (found, was) (raised p old (is_fullscreen p.type))
  where
    was : (o : Option ℕ) → Points s.processes o → (b : Bool) × (was_windowed s.processes o ≡ some b)
    was none h = (false, refl)
    was (some k) h =
        let (q, found, same) = find_process-some s.processes k (omega arith) in
        (is_windowed q.type, rw (found) refl)

    focused_on :
        (p : Process) (old : Bool)
        → IsValid (record s { redraw = s.redraw || old || is_windowed p.type; focused = some id })
    focused_on p old = retarget s _ v refl refl here v.moving

    raised :
        (p : Process) (old b : Bool)
        → Succeeds (do
          ps ← if b then some s.processes else set_depth s.processes id (length s.processes - 1)
          some (record s {
            redraw = s.redraw || old || is_windowed p.type;
            focused = some id;
            processes = ps;
          }))
    raised p old true = focused_on p old
    raised p old false =
        let some_length = count-le-length (λ q. q.id == id) s.processes in
        let (qs, is, counts) =
          set_depth-SameCounts s.processes id (length s.processes - 1) (omega arith) in
        rw (is) (IsValid-SameCounts _ qs counts (focused_on p old))

-- Where the program that is messaged does not kill its own process, and what it does keeps the
-- invariant.
pub record Loyal (r : Reaction) : Type 0 where
  pub valid :
      (s : Handler) (id : ℕ)
      → s.last_messaged ≡ some id
      → IsValid s
      → Points s.processes (some id)
      → IsValid (r.acts s)
  pub stays :
      (s : Handler) (id : ℕ)
      → s.last_messaged ≡ some id
      → IsValid s
      → Points s.processes (some id)
      → Points (r.acts s).processes (some id)

-- A program that does not leave fewer processes, and one that leaves as many.
abbrev pub NoFewer : Reaction → Type 0
NoFewer r =
    (s : Handler) (id : ℕ)
    → s.last_messaged ≡ some id
    → IsValid s
    → Points s.processes (some id)
    → length s.processes ≤ length (r.acts s).processes

abbrev pub AsMany : Reaction → Type 0
AsMany r =
    (s : Handler) (id : ℕ)
    → s.last_messaged ≡ some id
    → IsValid s
    → Points s.processes (some id)
    → length (r.acts s).processes ≡ length s.processes

-- A program that has the screen drawn again.
abbrev pub redrawing : Request → Reaction
redrawing reply = record { acts = λ s. record s { redraw = true }; reply = reply }

pub redrawing-Loyal : (reply : Request) → Loyal (redrawing reply)
redrawing-Loyal reply = record {
  valid = λ s id e v here. retarget s _ v refl refl v.focused v.moving;
  stays = λ s id e v here. here;
}

-- The handler while the program of a process runs.
abbrev pub messaged : Handler → ℕ → Handler
messaged s id = record s { last_messaged = some id }

pub messaged-IsValid : (s : Handler) (id : ℕ) → IsValid s → IsValid (messaged s id)
messaged-IsValid s id v = retarget s (messaged s id) v refl refl v.focused v.moving

-- The process at an index of the list can be pointed to.
pub Points-get :
    (s : Handler) (i : ℕ) (p : Process)
    → IsValid s
    → get s.processes i ≡ some p
    → Points s.processes (some p.id)
Points-get s i p v at =
    let less = count-erase (λ q. q.id == p.id) s.processes i p at in
    let self : (p.id == p.id) ≡ true = ground arith in
    let once : one (p.id == p.id) ≡ 1 = ap one self in let most = v.ids p.id in omega arith

-- The program that answered is still there.
pub send_message-some :
    (s : Handler) (id : ℕ) (r : Reaction)
    → Loyal r
    → IsValid s
    → Points s.processes (some id)
    → (t : Handler) × (send_message s id r ≡ some t)
      × IsValid t
      × Points t.processes (some id)
      × (length t.processes ≡ length (r.acts (record s { last_messaged = some id })).processes)
unfolding send_message
send_message-some s id r loyal v here =
    let a = record s { last_messaged = some id } in
    let va : IsValid a = retarget s a v refl refl v.focused v.moving in
    let u = loyal.valid a id refl va here in
    let there = loyal.stays a id refl va here in
    let (p, found, same) = find_process-some s.processes id (omega arith) in
    let (q, found', same') = find_process-some (r.acts a).processes id (omega arith) in
    let answered : Process → Process = λ p. push_request p r.reply in
    let kept =
      update_process-SameCounts answered id (r.acts a).processes
        (push_request-Keeps (λ p. r.reply)) in
    let w = IsValid-SameCounts (r.acts a) _ kept u in
    let ps = update_process (r.acts a).processes id answered in
    (
      record (r.acts a) { processes = ps; last_messaged = none },
      rw (found, found') refl,
      retarget (record (r.acts a) { processes = ps }) _ w refl refl w.focused w.moving,
      Points-SameCounts (r.acts a).processes ps (some id) kept there,
      length-update_process (r.acts a).processes id answered,
    )
