-- ===== src/ProcessHandler/Invariant.antt =====
-- What starting and killing processes keeps.
use electric_os.Base.{
  ℕ, suc, ◌+◌, ◌≤◌, ◌<◌, Bool, true, false, List, [], ◌∷◌, ◌++◌, ◌==◌, if◌then◌else◌, Option, none,
  some, ◌≡◌, refl, arith, ap, Bool-cases, inl, inr, subst,
}
use electric_os.ProcessHandler.{
  Process, is_fullscreen, Handler, get, erase, forget, kill_found, kill_process, find_procedure,
  find_fullscreen,
}
use electric_os.ProcessHandler.Depth.{count, count-erase, Found, find_index-Found, one}

-- A pointer is null or names a process of the list.
abbrev pub Points : List Process → Option ℕ → Type 0
Points ps none = Unit
Points ps (some id) = count (λ p. p.id == id) ps ≡ 1

-- Each ID and each program is there once at most, one process at most is full screen, IDs are at
-- most the last one given, and no pointer dangles.
pub record IsValid (s : Handler) : Type 0 where
  pub ids : (id : ℕ) → count (λ p. p.id == id) s.processes ≤ 1
  pub programs : (a : ℕ) → count (λ p. p.procedure == a) s.processes ≤ 1
  pub screens : count (λ p. is_fullscreen p.type) s.processes ≤ 1
  pub given : (id : ℕ) → s.new_id < id → count (λ p. p.id == id) s.processes ≡ 0
  pub focused : Points s.processes s.focused
  pub moving : Points s.processes s.moving

count-append :
    (P : Process → Bool) (ps qs : List Process) → count P (ps ++ qs) ≡ count P ps + count P qs
unfolding count
count-append P [] qs = omega arith
count-append P (p ∷ ps) qs = omega (arith, count-append P ps qs)

Points-forget :
    (ps : List Process) (i : ℕ) (p : Process) (o : Option ℕ)
    → get ps i ≡ some p
    → Points ps o
    → Points (erase ps i) (forget o p.id)
Points-forget ps i p none e h = h
Points-forget ps i p (some id) e h = elim (Bool-cases (id == p.id)) [
  | inl same ↦ rw (same) tt
  | inr other ↦
      let g = count-erase (λ q. q.id == id) ps i p e in
      let unlike : (p.id == id) ≡ false = ground arith in
      let zero_more : one (p.id == id) ≡ 0 = ap one unlike in rw (other) (omega arith)
]

kill_found-IsValid :
    (s : Handler) (id : ℕ) (o : Option ℕ)
    → IsValid s
    → Found s.processes id o
    → IsValid (kill_found s id o).0
unfolding Found
kill_found-IsValid s id none valid f = valid
kill_found-IsValid s id (some i) valid (p, here, same, inside) =
    let gone : (P : Process → Bool)
        → count P (erase s.processes i) + one (P p) ≡ count P s.processes =
      λ P. count-erase P s.processes i p here in
    record {
      ids = λ k. (let g = gone (λ q. q.id == k) in let v = valid.ids k in omega arith);
      programs =
          λ k. (let g = gone (λ q. q.procedure == k) in let v = valid.programs k in omega arith);
      screens = (let g = gone (λ q. is_fullscreen q.type) in let v = valid.screens in omega arith);
      given = λ k h. (let g = gone (λ q. q.id == k) in let v = valid.given k h in omega arith);
      focused =
          subst (λ k. Points (erase s.processes i) (forget s.focused k)) same
            (Points-forget s.processes i p s.focused here valid.focused);
      moving =
          subst (λ k. Points (erase s.processes i) (forget s.moving k)) same
            (Points-forget s.processes i p s.moving here valid.moving);
    }

-- Killing a process keeps the invariant.
pub kill_process-IsValid : (s : Handler) (id : ℕ) → IsValid s → IsValid (kill_process s id).0
unfolding kill_process
kill_process-IsValid s id valid = kill_found-IsValid s id _ valid (find_index-Found s.processes id)

pub find_procedure-none :
    (ps : List Process) (a : ℕ) → find_procedure ps a ≡ false → count (λ p. p.procedure == a) ps ≡ 0
unfolding find_procedure count
find_procedure-none [] a h = refl
find_procedure-none (p ∷ ps) a h = let rest = find_procedure-none ps a in ground arith

-- The full screen process found is the one there is.
unfoldable pub FullscreenFound : List Process → Option ℕ → Type 0
FullscreenFound ps none = count (λ p. is_fullscreen p.type) ps ≡ 0
FullscreenFound ps (some id) =
    (i : ℕ) × (p : Process) × (get ps i ≡ some p) × (p.id ≡ id) × (is_fullscreen p.type ≡ true)

pub find_fullscreen-Found : (ps : List Process) → FullscreenFound ps (find_fullscreen ps)
unfolding find_fullscreen FullscreenFound count get
find_fullscreen-Found [] = refl
find_fullscreen-Found (p ∷ ps) =
    later (is_fullscreen p.type) (find_fullscreen ps) refl (find_fullscreen-Found ps)
  where
    later :
        (b : Bool) (o : Option ℕ)
        → is_fullscreen p.type ≡ b
        → FullscreenFound ps o
        → FullscreenFound (p ∷ ps) (if b then some p.id else o)
    later true o e f = (0, p, refl, refl, e)
    later false none e f =
        let rest : count (λ q. is_fullscreen q.type) ps ≡ 0 = f in rw (e) (omega arith)
    later false (some id) e (i, q, here, same, full) = (suc i, q, here, same, full)

killed :
    (s : Handler) (id : ℕ) (o : Option ℕ)
    → IsValid s
    → Found s.processes id o
    → count (λ p. p.id == id) (kill_found s id o).0.processes ≡ 0
unfolding Found
killed s id none valid f = f
killed s id (some i) valid (p, here, same, inside) =
    let g = count-erase (λ q. q.id == id) s.processes i p here in
    let self : (p.id == id) ≡ true = ground arith in
    let one_less : one (p.id == id) ≡ 1 = ap one self in let v = valid.ids id in omega arith

-- In a valid state, `KillProcess` leaves a valid state, in which no process has its ID and
-- neither the focus nor the window that is moved dangles.
pub kill_process_lem :
    (s : Handler) (id : ℕ)
    → IsValid s
    → IsValid (kill_process s id).0 × (count (λ p. p.id == id) (kill_process s id).0.processes ≡ 0)
unfolding kill_process
kill_process_lem s id valid =
    (kill_process-IsValid s id valid, killed s id _ valid (find_index-Found s.processes id))
