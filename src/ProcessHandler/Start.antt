-- ===== src/ProcessHandler/Start.antt =====
-- Starting a process.
mod Replace
mod Construct
pub mod Beside
use mathlib.Core.Option
use electric_os.Base.{
  ℕ, zero, suc, ◌+◌, ◌-◌, ◌≤◌, ◌<◌, Bool, true, false, not, ◌&&◌, ◌||◌, List, [], ◌∷◌, ◌++◌, length,
  set, ltb, leb, ◌==◌, if◌then◌else◌, Option, none, some, ◌≡◌, ◌≢◌, ◌⊎◌, refl, arith, if_both, ap,
  Bool-cases, inl, inr, ◌∙◌, sym, ◌>>=◌, length-append, subst,
}
use electric_os.Stl.Point.{Point}
use electric_os.ProcessHandler.{
  Process, ProcessType, fullscreen, windowed, frameless_window, minimized, Request, draw,
  ProcessInfo, is_fullscreen, Handler, get, find_index, set_depth, erase, forget, kill_found,
  kill_process, find_procedure, find_fullscreen, framed, new_process, described, kill_if,
  add_process, start_process, push_request, is_minimized, is_success,
}
use electric_os.ProcessHandler.Depth.{
  count, count-erase, Found, find_index-Found, IgnoresDepth, Moved, set_depth-Moved, one,
}
use electric_os.ProcessHandler.Invariant.{
  Points, IsValid, kill_process-IsValid, find_procedure-none, FullscreenFound,
  find_fullscreen-Found,
}
use electric_os.ProcessHandler.Start.Replace.{count-append, Cleared, cleared}
use electric_os.ProcessHandler.Start.Construct.{Made, new_process-Made}

Moved-some :
    (ps : List Process) (id d : ℕ) (o : Option (List Process))
    → Moved ps id d o
    → (qs : List Process) × (o ≡ some qs)
      × ((P : Process → Bool) → IgnoresDepth P → count P qs ≡ count P ps)
unfolding Moved
Moved-some ps id d none moved = elim moved [ ]
Moved-some ps id d (some qs) (counts, length_same, there) = (qs, refl, counts)

-- The list after the push and the swap.
placed :
    (s : Handler) (p : Process)
    → p.depth ≤ length s.processes
    → (qs : List Process) × (set_depth (s.processes ++ (p ∷ [])) p.id p.depth ≡ some qs)
      × ((P : Process → Bool) → IgnoresDepth P → count P qs ≡ count P s.processes + one (P p))
unfolding count
placed s p fits =
    let pushed_list = s.processes ++ (p ∷ []) in
    let n = length-append s.processes (p ∷ []) in
    let (qs, e, counts) =
      Moved-some pushed_list p.id p.depth _
        (set_depth-Moved pushed_list p.id p.depth (omega arith)) in
    (
      qs,
      e,
      λ P h. (let a = counts P h in let b = count-append P s.processes (p ∷ []) in omega arith),
    )

-- A list with one process of a new ID more.
Points-more :
    (ps qs : List Process) (id : ℕ) (o : Option ℕ)
    → count (λ q. q.id == id) ps ≡ 0
    → ((k : ℕ) → count (λ q. q.id == k) qs ≡ count (λ q. q.id == k) ps + one (id == k))
    → Points ps o
    → Points qs o
Points-more ps qs id none new counts h = h
Points-more ps qs id (some k) new counts h = elim (Bool-cases (id == k)) [
  | inl same ↦
      let e : id ≡ k = ground arith in
      let none_yet : count (λ q. q.id == k) ps ≡ 0 =
        subst (λ n. count (λ q. q.id == n) ps ≡ 0) e new in
      absurd (omega arith)
  | inr other ↦ let a = counts k in let b : one (id == k) ≡ 0 = ap one other in omega arith
]

-- The handler while the constructor runs.
abbrev bump : Handler → Handler
bump s = record s { new_id = suc s.new_id; last_messaged = none }

bump-IsValid : (s : Handler) → IsValid s → IsValid (bump s)
bump-IsValid s valid = record {
  ids = valid.ids;
  programs = valid.programs;
  screens = valid.screens;
  given = λ id h. valid.given id (omega arith);
  focused = valid.focused;
  moving = valid.moving;
}

-- Started s procedure o: the process is in the list, once, under the next ID, it is the only one of
-- its program, and the invariant holds.
pub Started : Handler → ℕ → Option (Handler × ℕ) → Type 0
Started s procedure none = ⊥
Started s procedure (some (s', id)) =
    IsValid s'
    × (id ≡ suc s.new_id)
    × (count (λ p. p.id == id) s'.processes ≡ 1)
    × (count (λ p. p.procedure == procedure) s'.processes ≡ 1)

module _ (s s1 : Handler) (p : Process) (numbered : p.id ≡ suc s.new_id) (valid : IsValid s)
    (new_program : count (λ q. q.procedure == p.procedure) s.processes ≡ 0)
    (cl : Cleared (bump s) (is_fullscreen p.type) s1) (qs : List Process)
    (counts : (P : Process → Bool)
      → IgnoresDepth P
      → count P qs ≡ count P s1.processes + one (P p)) where
  id_counts :
      (k : ℕ) → count (λ q. q.id == k) qs ≡ count (λ q. q.id == k) s1.processes + one (p.id == k)
  id_counts k = counts (λ q. q.id == k) (λ q d. refl)

  no_id : (k : ℕ) → s.new_id < k → count (λ q. q.id == k) s1.processes ≡ 0
  no_id k h = let a = valid.given k h in let b = cl.fewer (λ q. q.id == k) in omega arith

  at_most : (b : Bool) → one b ≤ 1
  at_most true = omega arith
  at_most false = omega arith

  ids_after : (k : ℕ) → count (λ q. q.id == k) qs ≤ 1
  ids_after k = elim (Bool-cases (p.id == k)) [
    | inl same ↦
        let none_yet = no_id k (ground arith) in
        let a = id_counts k in let b = at_most (p.id == k) in omega arith
    | inr other ↦
        let a = id_counts k in
        let b : one (p.id == k) ≡ 0 = ap one other in let v = cl.valid.ids k in omega arith
  ]

  programs_after : (k : ℕ) → count (λ q. q.procedure == k) qs ≤ 1
  programs_after k = elim (Bool-cases (p.procedure == k)) [
    | inl same ↦
        let e : p.procedure ≡ k = ground arith in
        let none_yet : count (λ q. q.procedure == k) s.processes ≡ 0 =
          subst (λ n. count (λ q. q.procedure == n) s.processes ≡ 0) e new_program in
        let f = cl.fewer (λ q. q.procedure == k) in
        let a = counts (λ q. q.procedure == k) (λ q d. refl) in
        let b = at_most (p.procedure == k) in omega arith
    | inr other ↦
        let a = counts (λ q. q.procedure == k) (λ q d. refl) in
        let b : one (p.procedure == k) ≡ 0 = ap one other in
        let v = cl.valid.programs k in omega arith
  ]

  given_after : (k : ℕ) → s1.new_id < k → count (λ q. q.id == k) qs ≡ 0
  given_after k h =
      let e = cl.same in
      let none_yet = no_id k (omega arith) in
      let a = id_counts k in
      let unlike : (p.id == k) ≡ false = ground arith in
      let b : one (p.id == k) ≡ 0 = ap one unlike in omega arith

  extended : IsValid (record s1 { processes = qs })
  extended =
      let new = no_id p.id (omega arith) in
      record {
        ids = ids_after;
        programs = programs_after;
        screens =
            (let a = counts (λ q. is_fullscreen q.type) (λ q d. refl) in
              let b = cl.screens in omega arith);
        given = given_after;
        focused = Points-more s1.processes qs p.id s1.focused new id_counts cl.valid.focused;
        moving = Points-more s1.processes qs p.id s1.moving new id_counts cl.valid.moving;
      }

  started : Started s p.procedure (some (record s1 { processes = qs }, p.id))
  unfolding Started
  started = (
    extended,
    numbered,
    (let self : (p.id == p.id) ≡ true = ground arith in
        let a = id_counts p.id in
        let new = no_id p.id (omega arith) in
        let b : one (p.id == p.id) ≡ 1 = ap one self in omega arith),
    (let self : (p.procedure == p.procedure) ≡ true = ground arith in
        let a = counts (λ q. q.procedure == p.procedure) (λ q d. refl) in
        let f = cl.fewer (λ q. q.procedure == p.procedure) in
        let b : one (p.procedure == p.procedure) ≡ 1 = ap one self in omega arith),
  )

add_process-Started :
    (s : Handler) (p : Process)
    → p.id ≡ suc s.new_id
    → IsValid s
    → count (λ q. q.procedure == p.procedure) s.processes ≡ 0
    → p.depth + (if is_fullscreen p.type then count (λ q. is_fullscreen q.type) s.processes else 0)
      ≤ length s.processes
    → Started s p.procedure (add_process (bump s) p)
unfolding add_process
add_process-Started s p numbered valid new_program fits =
    let s1 =
      if is_fullscreen p.type then kill_if (bump s) (find_fullscreen s.processes) else bump s in
    let cl : Cleared (bump s) (is_fullscreen p.type) s1 =
      cleared (bump s) (is_fullscreen p.type) (bump-IsValid s valid) in
    let room = cl.room in
    let (qs, e, counts) = placed s1 p (omega arith) in
    rw (e) (started s s1 p numbered valid new_program cl qs counts)

-- In a valid state, a program that does not run yet, is not minimized, and asks for a depth that
-- is a place of the list as it is after a full screen process is replaced, is started by
-- `StartProcess`: the state is valid again, with one full screen process at most, and the
-- process is in the list once, under the next ID, and is the only one of its program.
pub start_process-Started :
    (s : Handler) (fresh : Process) (screen : Point) (procedure : ℕ) (info : ProcessInfo)
    (reply : Request)
    → IsValid s
    → find_procedure s.processes procedure ≡ false
    → is_minimized info.type ≡ false
    → info.depth
        + (if is_fullscreen info.type then count (λ q. is_fullscreen q.type) s.processes else 0)
      ≤ length s.processes
    → Started s procedure (start_process s fresh screen procedure info reply)
unfolding start_process
start_process-Started s fresh screen procedure info reply valid new_program shown fits =
    let (p, e, made) = new_process-Made s fresh screen procedure info reply shown (omega arith) in
    let none_yet = find_procedure-none s.processes procedure new_program in
    rw (new_program, e)
      (subst (λ a. Started s a (add_process (bump s) p)) made.procedure_kept
        (add_process-Started s p made.id valid
          (subst (λ a. count (λ q. q.procedure == a) s.processes ≡ 0) (sym made.procedure_kept)
            none_yet)
          (subst
            (λ t.
              p.depth
                + (if is_fullscreen t then count (λ q. is_fullscreen q.type) s.processes else 0)
              ≤ length s.processes)
            (sym made.type)
            (subst
              (λ d.
                d
                  + (if is_fullscreen info.type
                      then count (λ q. is_fullscreen q.type) s.processes
                      else 0)
                ≤ length s.processes)
              (sym made.depth) fits))))

pub Started-IsValid :
    (s h : Handler) (procedure id : ℕ) (o : Option (Handler × ℕ))
    → o ≡ some (h, id)
    → Started s procedure o
    → IsValid h
unfolding Started
Started-IsValid s h procedure id o e st = (subst (Started s procedure) e st).0

pub Started-Points :
    (s h : Handler) (procedure id : ℕ) (o : Option (Handler × ℕ))
    → o ≡ some (h, id)
    → Started s procedure o
    → Points h.processes (some id)
unfolding Started
Started-Points s h procedure id o e st = (subst (Started s procedure) e st).2

pub Started-some :
    (s : Handler) (procedure : ℕ) (o : Option (Handler × ℕ))
    → Started s procedure o
    → (h : Handler) × (id : ℕ) × (o ≡ some (h, id))
unfolding Started
Started-some s procedure none st = absurd st
Started-some s procedure (some (h, id)) st = (h, id, refl)
