-- ===== src/ProcessHandler/Events/Recount.antt =====
-- What changes to processes leave of the invariant.
use electric_os.Base.{
  ℕ, suc, ◌≤◌, ◌<◌, Bool, List, [], ◌∷◌, map, length, ◌==◌, Option, none, some, ◌≡◌, refl, arith,
  ap, Bool-cases, inl, inr, ◌∙◌,
}
use electric_os.ProcessHandler.{Process, is_fullscreen, Handler, set_depth}
use electric_os.ProcessHandler.Depth.{count, Moved, set_depth-Moved}
use electric_os.ProcessHandler.Invariant.{Points, IsValid}
use electric_os.ProcessHandler.Events.{find_process, update_process, deref}

-- The three facts about a process on which the invariant depends are kept.
pub record Keeps (f : Process → Process) : Type 0 where
  pub same_id : (p : Process) → (f p).id ≡ p.id
  pub same_procedure : (p : Process) → (f p).procedure ≡ p.procedure
  pub same_screen : (p : Process) → is_fullscreen (f p).type ≡ is_fullscreen p.type

-- Both lists have as many processes of each ID and each program, and as many full screen ones.
pub record SameCounts (ps qs : List Process) : Type 0 where
  pub ids : (k : ℕ) → count (λ p. p.id == k) qs ≡ count (λ p. p.id == k) ps
  pub programs : (a : ℕ) → count (λ p. p.procedure == a) qs ≡ count (λ p. p.procedure == a) ps
  pub screens : count (λ p. is_fullscreen p.type) qs ≡ count (λ p. is_fullscreen p.type) ps

pub Points-SameCounts :
    (ps qs : List Process) (o : Option ℕ) → SameCounts ps qs → Points ps o → Points qs o
Points-SameCounts ps qs none same h = h
Points-SameCounts ps qs (some id) same h = same.ids id ∙ h

pub IsValid-SameCounts :
    (s : Handler) (qs : List Process)
    → SameCounts s.processes qs
    → IsValid s
    → IsValid (record s { processes = qs })
IsValid-SameCounts s qs same v = record {
  ids = λ k. (let a = same.ids k in let b = v.ids k in omega arith);
  programs = λ k. (let a = same.programs k in let b = v.programs k in omega arith);
  screens = (let a = same.screens in let b = v.screens in omega arith);
  given = λ k h. (let a = same.ids k in let b = v.given k h in omega arith);
  focused = Points-SameCounts s.processes qs s.focused same v.focused;
  moving = Points-SameCounts s.processes qs s.moving same v.moving;
}

count-update_process :
    (P : Process → Bool) (f : Process → Process) (id : ℕ) (ps : List Process)
    → ((p : Process) → P (f p) ≡ P p)
    → count P (update_process ps id f) ≡ count P ps
unfolding count update_process
count-update_process P f id [] h = refl
count-update_process P f id (p ∷ ps) h = ground (arith, h p, count-update_process P f id ps h)

count-map :
    (P : Process → Bool) (f : Process → Process) (ps : List Process)
    → ((p : Process) → P (f p) ≡ P p)
    → count P (map f ps) ≡ count P ps
unfolding count
count-map P f [] h = refl
count-map P f (p ∷ ps) h = rw (h p, count-map P f ps h) refl

pub update_process-SameCounts :
    (f : Process → Process) (id : ℕ) (ps : List Process)
    → Keeps f
    → SameCounts ps (update_process ps id f)
update_process-SameCounts f id ps k = record {
  ids = λ n. count-update_process (λ p. p.id == n) f id ps (λ p. ap (λ x. x == n) (k.same_id p));
  programs = λ a.
      count-update_process (λ p. p.procedure == a) f id ps
        (λ p. ap (λ x. x == a) (k.same_procedure p));
  screens = count-update_process (λ p. is_fullscreen p.type) f id ps k.same_screen;
}

pub map-SameCounts :
    (f : Process → Process) (ps : List Process) → Keeps f → SameCounts ps (map f ps)
map-SameCounts f ps k = record {
  ids = λ n. count-map (λ p. p.id == n) f ps (λ p. ap (λ x. x == n) (k.same_id p));
  programs =
      λ a. count-map (λ p. p.procedure == a) f ps (λ p. ap (λ x. x == a) (k.same_procedure p));
  screens = count-map (λ p. is_fullscreen p.type) f ps k.same_screen;
}

-- A pointer to a process of the list can be followed.
pub find_process-some :
    (ps : List Process) (id : ℕ)
    → 1 ≤ count (λ p. p.id == id) ps
    → (p : Process) × (find_process ps id ≡ some p) × (p.id ≡ id)
unfolding find_process count
find_process-some [] id h = absurd (omega arith)
find_process-some (p ∷ ps) id h = elim (Bool-cases (p.id == id)) [
  | inl e ↦ (p, rw (e) refl, ground arith)
  | inr e ↦ let (q, found, same) = find_process-some ps id (ground arith) in (q, rw (e) found, same)
]

pub find_process-count :
    (ps : List Process) (id : ℕ) (p : Process)
    → find_process ps id ≡ some p
    → (1 ≤ count (λ q. q.id == id) ps) × (p.id ≡ id)
unfolding find_process count
find_process-count [] id p h = absurd (cc)
find_process-count (q ∷ ps) id p h = ground (arith, find_process-count ps id p)

-- There is a result, and it is valid: no pointer that the code followed was dangling.
abbrev pub Succeeds : Option Handler → Type 0
Succeeds none = ⊥
Succeeds (some s) = IsValid s

pub deref-Succeeds :
    (s : Handler) (id : ℕ) (f : Process → Process)
    → IsValid s
    → Points s.processes (some id)
    → Keeps f
    → Succeeds (deref s id f)
deref-Succeeds s id f v here k =
    let (p, found, same) = find_process-some s.processes id (omega arith) in
    rw (found) (
      IsValid-SameCounts s (update_process s.processes id f)
        (update_process-SameCounts f id s.processes k) v)

Moved-SameCounts :
    (ps : List Process) (id d : ℕ) (o : Option (List Process))
    → Moved ps id d o
    → (qs : List Process) × (o ≡ some qs) × SameCounts ps qs
unfolding Moved
Moved-SameCounts ps id d none m = elim m [ ]
Moved-SameCounts ps id d (some qs) (counts, n, there) = (
  qs,
  refl,
  record {
    ids = λ k. counts (λ p. p.id == k) (λ p d'. refl);
    programs = λ a. counts (λ p. p.procedure == a) (λ p d'. refl);
    screens = counts (λ p. is_fullscreen p.type) (λ p d'. refl);
  },
)

pub set_depth-SameCounts :
    (ps : List Process) (id d : ℕ)
    → d < length ps
    → (qs : List Process) × (set_depth ps id d ≡ some qs) × SameCounts ps qs
set_depth-SameCounts ps id d small = Moved-SameCounts ps id d _ (set_depth-Moved ps id d small)

pub SameCounts-refl : (ps : List Process) → SameCounts ps ps
SameCounts-refl ps = record { ids = λ k. refl; programs = λ a. refl; screens = refl }

pub count-le-length : (P : Process → Bool) (ps : List Process) → count P ps ≤ length ps
unfolding count
count-le-length P [] = omega arith
count-le-length P (p ∷ ps) = ground (arith, count-le-length P ps)

pub length-update_process :
    (ps : List Process) (id : ℕ) (f : Process → Process)
    → length (update_process ps id f) ≡ length ps
unfolding update_process
length-update_process [] id f = refl
length-update_process (p ∷ ps) id f = ap suc (length-update_process ps id f)
