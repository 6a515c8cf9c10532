-- ===== src/ProcessHandler/Start/Replace.antt =====
-- A full screen process goes before another one comes.
use electric_os.Base.{
  ℕ, ◌+◌, ◌≤◌, Bool, true, false, not, ◌&&◌, List, [], ◌∷◌, ◌++◌, length, ◌==◌, if◌then◌else◌,
  Option, none, some, ◌≡◌, refl, arith, ap, Bool-cases, inl, inr,
}
use electric_os.ProcessHandler.{
  Process, is_fullscreen, Handler, get, find_index, erase, kill_found, kill_process,
  find_fullscreen, kill_if,
}
use electric_os.ProcessHandler.Depth.{count, count-erase, Found, find_index-Found, one}
use electric_os.ProcessHandler.Invariant.{
  IsValid, kill_process-IsValid, FullscreenFound, find_fullscreen-Found,
}

pub count-append :
    (P : Process → Bool) (ps qs : List Process) → count P (ps ++ qs) ≡ count P ps + count P qs
unfolding count
count-append P [] qs = omega arith
count-append P (p ∷ ps) qs = omega (arith, count-append P ps qs)

count_all : (ps : List Process) → count (λ p. true) ps ≡ length ps
unfolding count
count_all [] = refl
count_all (p ∷ ps) = omega (arith, count_all ps)

pub count_pos :
    (P : Process → Bool) (ps : List Process) (i : ℕ) (p : Process)
    → get ps i ≡ some p
    → P p ≡ true
    → 1 ≤ count P ps
count_pos P ps i p here holds =
    let g = count-erase P ps i p here in let one_more : one (P p) ≡ 1 = ap one holds in omega arith

count_split :
    (P Q : Process → Bool) (ps : List Process)
    → count (λ p. P p && Q p) ps + count (λ p. P p && not (Q p)) ps ≡ count P ps
unfolding count
count_split P Q [] = refl
count_split P Q (p ∷ ps) = ground (arith, count_split P Q ps)

-- Two processes of one ID are alike to each test, where there is one process of that ID.
same_id :
    (Q : Process → Bool) (ps : List Process) (i j : ℕ) (p q : Process)
    → count (λ r. r.id == p.id) ps ≤ 1
    → get ps i ≡ some p
    → get ps j ≡ some q
    → q.id ≡ p.id
    → Q p ≡ true
    → Q q ≡ true
same_id Q ps i j p q once e1 e2 same holds = elim (Bool-cases (Q q)) [
  | inl h ↦ h
  | inr h ↦
      let ours : ℕ = p.id in
      let a = count_pos (λ r. (r.id == ours) && Q r) ps i p e1 (ground arith) in
      let b = count_pos (λ r. (r.id == ours) && not (Q r)) ps j q e2 (ground arith) in
      let c = count_split (λ r. r.id == ours) Q ps in absurd (omega arith)
]

-- What is left before the new process is pushed.
pub record Cleared (s : Handler) (full : Bool) (s1 : Handler) : Type 0 where
  pub valid : IsValid s1
  pub fewer : (P : Process → Bool) → count P s1.processes ≤ count P s.processes
  pub screens : count (λ p. is_fullscreen p.type) s1.processes + one full ≤ 1
  pub room :
      length s.processes
      ≤ length s1.processes + (if full then count (λ p. is_fullscreen p.type) s.processes else 0)
  pub same : s1.new_id ≡ s.new_id

kill_fullscreen :
    (s : Handler) (id i : ℕ) (p : Process) (o : Option ℕ)
    → IsValid s
    → get s.processes i ≡ some p
    → p.id ≡ id
    → is_fullscreen p.type ≡ true
    → Found s.processes id o
    → IsValid (kill_found s id o).0
    → Cleared s true (kill_found s id o).0
unfolding Found
kill_fullscreen s id i p none valid here named full f v =
    let a = count_pos (λ q. q.id == id) s.processes i p here (ground arith) in absurd (omega arith)
kill_fullscreen s id i p (some j) valid here named full (q, there, same, inside) v =
    let gone : (P : Process → Bool)
        → count P (erase s.processes j) + one (P q) ≡ count P s.processes =
      λ P. count-erase P s.processes j q there in
    let q_full : is_fullscreen q.type ≡ true =
      same_id (λ r. is_fullscreen r.type) s.processes i j p q (valid.ids p.id) here there
        (omega arith) full in
    let q_one : one (is_fullscreen q.type) ≡ 1 = ap one q_full in
    let g = gone (λ r. is_fullscreen r.type) in
    record {
      valid = v;
      fewer = λ P. (let h = gone P in omega arith);
      screens = (let u = valid.screens in omega arith);
      room =
          (let h = gone (λ r. true) in
            let n = count_all s.processes in
            let m = count_all (erase s.processes j) in omega arith);
      same = refl;
    }

kill_if-Cleared :
    (s : Handler) (o : Option ℕ)
    → IsValid s
    → FullscreenFound s.processes o
    → Cleared s true (kill_if s o)
unfolding FullscreenFound kill_process
kill_if-Cleared s none valid f = record {
  valid = valid;
  fewer = λ P. omega arith;
  screens = (let n : count (λ p. is_fullscreen p.type) s.processes ≡ 0 = f in omega arith);
  room = omega arith;
  same = refl;
}
kill_if-Cleared s (some id) valid (i, p, here, named, full) =
    kill_fullscreen s id i p (find_index s.processes id) valid here named full
      (find_index-Found s.processes id) (kill_process-IsValid s id valid)

pub cleared :
    (s : Handler) (full : Bool)
    → IsValid s
    → Cleared s full (if full then kill_if s (find_fullscreen s.processes) else s)
cleared s true valid = kill_if-Cleared s _ valid (find_fullscreen-Found s.processes)
cleared s false valid = record {
  valid = valid;
  fewer = λ P. omega arith;
  screens = (let v = valid.screens in omega arith);
  room = omega arith;
  same = refl;
}
