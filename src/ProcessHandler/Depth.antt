-- ===== src/ProcessHandler/Depth.antt =====
-- Changing the depth of a process permutes the list.
use mathlib.Core.Option
use electric_os.Base.{
  ℕ, zero, suc, ◌+◌, ◌<◌, Bool, true, false, List, [], ◌∷◌, length, set, ltb, ◌==◌, if◌then◌else◌,
  Option, none, some, ◌≡◌, ◌⊎◌, refl, arith, ap, inl, inr, length-set, ◌∙◌, sym,
}
use electric_os.ProcessHandler.{Process, get, swap_found, write_depth, find_index, set_depth, erase}

-- How many processes pass a test.
unfoldable pub count : (Process → Bool) → List Process → ℕ
count P [] = 0
count P (p ∷ ps) = (if P p then 1 else 0) + count P ps

abbrev pub one : Bool → ℕ
one b = if b then 1 else 0

pub count-set :
    (P : Process → Bool) (ps : List Process) (i : ℕ) (old new : Process)
    → get ps i ≡ some old
    → count P (set ps i new) + one (P old) ≡ count P ps + one (P new)
unfolding count get
count-set P [] i old new e = ground arith
count-set P (p ∷ ps) zero old new e = ground arith
count-set P (p ∷ ps) (suc i) old new e = ground (arith, count-set P ps i old new e)

pub count-erase :
    (P : Process → Bool) (ps : List Process) (i : ℕ) (old : Process)
    → get ps i ≡ some old
    → count P (erase ps i) + one (P old) ≡ count P ps
unfolding count get erase
count-erase P [] i old e = ground arith
count-erase P (p ∷ ps) zero old e = ground arith
count-erase P (p ∷ ps) (suc i) old e = ground (arith, count-erase P ps i old e)

-- A test that the depth does not matter to.
abbrev pub IgnoresDepth : (Process → Bool) → Type 0
IgnoresDepth P = (p : Process) (d : ℕ) → P (record p { depth = d }) ≡ P p

count-write_depth :
    (P : Process → Bool) (ps : List Process) (id d : ℕ)
    → IgnoresDepth P
    → count P (write_depth ps id d) ≡ count P ps
unfolding count write_depth
count-write_depth P [] id d h = refl
count-write_depth P (p ∷ ps) id d h = ground (arith, count-write_depth P ps id d h, h p d)

get-set_same :
    (ps : List Process) (i d : ℕ) (p : Process) → get ps d ≡ some p → get (set ps i p) d ≡ some p
unfolding get
get-set_same [] i d p e = e
get-set_same (q ∷ ps) zero zero p e = refl
get-set_same (q ∷ ps) zero (suc d) p e = e
get-set_same (q ∷ ps) (suc i) zero p e = e
get-set_same (q ∷ ps) (suc i) (suc d) p e = get-set_same ps i d p e

get-set_self :
    (ps : List Process) (i : ℕ) (p : Process) → i < length ps → get (set ps i p) i ≡ some p
unfolding get
get-set_self [] i p h = absurd (omega arith)
get-set_self (q ∷ ps) zero p h = refl
get-set_self (q ∷ ps) (suc i) p h = get-set_self ps i p (omega arith)

pub get_total : (ps : List Process) (i : ℕ) → i < length ps → (p : Process) × (get ps i ≡ some p)
unfolding get
get_total [] i h = absurd (omega arith)
get_total (p ∷ ps) zero h = (p, refl)
get_total (p ∷ ps) (suc i) h = get_total ps i (omega arith)

length-write_depth : (ps : List Process) (id d : ℕ) → length (write_depth ps id d) ≡ length ps
unfolding write_depth
length-write_depth [] id d = refl
length-write_depth (p ∷ ps) id d = ap suc (length-write_depth ps id d)

-- The place found is in the list and holds the process.
unfoldable pub Found : List Process → ℕ → Option ℕ → Type 0
Found ps id none = count (λ p. p.id == id) ps ≡ 0
Found ps id (some i) = (p : Process) × (get ps i ≡ some p) × (p.id ≡ id) × (i < length ps)

Found-later :
    (p : Process) (ps : List Process) (id : ℕ) (b : Bool) (o : Option ℕ)
    → p.id == id ≡ b
    → Found ps id o
    → Found (p ∷ ps) id (if b then some 0 else Option.map suc o)
unfolding Found get count
Found-later p ps id true o e f = (p, refl, ground arith, omega arith)
Found-later p ps id false none e f =
    let rest : count (λ q. q.id == id) ps ≡ 0 = f in rw (e) (omega arith)
Found-later p ps id false (some i) e (q, here, same, small) = (q, here, same, omega arith)

pub find_index-Found : (ps : List Process) (id : ℕ) → Found ps id (find_index ps id)
unfolding find_index Found count
find_index-Found [] id = refl
find_index-Found (p ∷ ps) id =
    Found-later p ps id (p.id == id) (find_index ps id) refl (find_index-Found ps id)

-- After a swap of two places of the list, each test passes as often.
pub swap-count :
    (P : Process → Bool) (ps : List Process) (i d : ℕ) (this other : Process)
    → get ps i ≡ some this
    → get ps d ≡ some other
    → count P (set (set ps i other) d this) ≡ count P ps
swap-count P ps i d this other e1 e2 =
    let first = count-set P ps i this other e1 in
    let second = count-set P (set ps i other) d other this (get-set_same ps i d other e2) in
    omega arith

-- What changing the depth makes of a list: every test on the processes passes as often as before,
-- the place that `d` names holds the process if it was in the list, and no index leaves the list.
unfoldable pub Moved : List Process → ℕ → ℕ → Option (List Process) → Type 0
Moved ps id d none = ⊥
Moved ps id d (some qs) =
    ((P : Process → Bool) → IgnoresDepth P → count P qs ≡ count P ps)
    × (length qs ≡ length ps)
    × ((count (λ p. p.id == id) ps ≡ 0) ⊎ ((p : Process) × (get qs d ≡ some p) × (p.id ≡ id)))

swap_found-Moved :
    (ps : List Process) (id d : ℕ) (o : Option ℕ)
    → d < length ps
    → Found (write_depth ps id d) id o
    → Moved ps id d (swap_found (write_depth ps id d) o d)
unfolding Found Moved
swap_found-Moved ps id d none small f = (
  λ P h. count-write_depth P ps id d h,
  length-write_depth ps id d,
  inl (sym (count-write_depth (λ p. p.id == id) ps id d (λ p d'. refl)) ∙ f),
)
swap_found-Moved ps id d (some i) small (this, e1, same, inside) =
    let qs = write_depth ps id d in
    let n = length-write_depth ps id d in
    let (other, e2) = get_total qs d (omega arith) in
    rw (e1, e2)
      (
        λ P h. swap-count P qs i d this other e1 e2 ∙ count-write_depth P ps id d h,
        length-set (set qs i other) d this ∙ length-set qs i other ∙ n,
        inr (
          this,
          get-set_self (set qs i other) d this (let m = length-set qs i other in omega arith),
          same,
        ),
      )

-- For a depth that is a place of the list.
pub set_depth-Moved :
    (ps : List Process) (id d : ℕ) → d < length ps → Moved ps id d (set_depth ps id d)
unfolding set_depth
set_depth-Moved ps id d small =
    let far : ltb (length ps) d ≡ false = ground arith in
    rw (far) (swap_found-Moved ps id d _ small (find_index-Found (write_depth ps id d) id))
