-- ===== src/Stl/Str/Buffer.antt =====
-- Reading and writing inside of the memory.
use mathlib.Core.List.{append-nil}
use electric_os.Base.{
  ℕ, zero, suc, ◌+◌, ◌≤◌, List, [], ◌∷◌, ◌++◌, length, Option, none, some, ◌≡◌, refl, arith, ap,
  ap₂, sym, ◌∙◌,
}
use electric_os.Stl.Str.{cons_to, write_all, read}

abbrev pub then_all : Option (List ℕ) → List ℕ → Option (List ℕ)
then_all none xs = none
then_all (some old) xs = some (old ++ xs)

-- A write in bounds.
pub record Written (memory : List ℕ) (at : ℕ) (xs new : List ℕ) : Type 0 where
  pub done : write_all memory at xs ≡ some new
  pub length_kept : length new ≡ length memory
  pub before : (n : ℕ) → n ≤ at → read n new ≡ read n memory
  pub there : read (at + length xs) new ≡ then_all (read at memory) xs

read-before :
    (b c at : ℕ) (new memory : List ℕ)
    → ((n : ℕ) → n ≤ at → read n new ≡ read n memory)
    → (n : ℕ) → n ≤ suc at
    → b ≡ c
    → read n (b ∷ new) ≡ read n (c ∷ memory)
unfolding read
read-before b c at new memory h zero le e = refl
read-before b c at new memory h (suc n) le e = ap₂ cons_to e (h n (omega arith))

-- A read in bounds, and the shorter ones.
pub read_total :
    (n : ℕ) (memory : List ℕ)
    → n ≤ length memory
    → (xs : List ℕ) × (read n memory ≡ some xs)
      × (length xs ≡ n)
      × ((k : ℕ) → k ≤ n → read k memory ≡ read k xs)
unfolding read
read_total zero memory h =
    ([], refl, refl, λ k le. (let none_yet : k ≡ 0 = omega arith in rw (none_yet) refl))
read_total (suc n) [] h = absurd (omega arith)
read_total (suc n) (b ∷ memory) h =
    let (xs, e, l, shorter) = read_total n memory (omega arith) in
    (b ∷ xs, rw (e) refl, ap suc l, λ k le. read-before b b n memory xs shorter k le refl)

abbrev pub or_nil : Option (List ℕ) → List ℕ
or_nil none = []
or_nil (some xs) = xs

-- What is read of two memories alike is alike where it is shorter.
pub read-shorter :
    (n k : ℕ) (a b : List ℕ)
    → n ≤ length a
    → n ≤ length b
    → read n a ≡ read n b
    → k ≤ n
    → read k a ≡ read k b
read-shorter n k a b ha hb e le =
    let (xs, ex, lx, sx) = read_total n a ha in
    let (ys, ey, ly, sy) = read_total n b hb in
    let same : xs ≡ ys = ap or_nil (sym ex ∙ e ∙ ey) in sx k le ∙ ap (read k) same ∙ sym (sy k le)

cons_to-then_all :
    (b : ℕ) (o : Option (List ℕ)) (xs : List ℕ)
    → cons_to b (then_all o xs) ≡ then_all (cons_to b o) xs
cons_to-then_all b none xs = refl
cons_to-then_all b (some old) xs = refl

then_all-nil : (o : Option (List ℕ)) → o ≡ then_all o []
then_all-nil none = refl
then_all-nil (some old) = ap some (sym (append-nil old))

pub write_all-Written :
    (memory : List ℕ) (at : ℕ) (xs : List ℕ)
    → at + length xs ≤ length memory
    → (new : List ℕ) × Written memory at xs new
unfolding write_all read
write_all-Written memory at [] h =
    let same : at + 0 ≡ at = omega arith in
    (
      memory,
      record {
        done = refl;
        length_kept = refl;
        before = λ n le. refl;
        there = rw (same) (then_all-nil (read at memory));
      },
    )
write_all-Written [] at (x ∷ xs) h = absurd (omega arith)
write_all-Written (b ∷ memory) zero (x ∷ xs) h =
    let (new, w) = write_all-Written memory zero xs (omega arith) in
    let one_more : 0 + suc (length xs) ≡ suc (0 + length xs) = omega arith in
    (
      x ∷ new,
      record {
        done = rw (w.done) refl;
        length_kept = ap suc w.length_kept;
        before = λ n le. (let none_yet : n ≡ 0 = omega arith in rw (none_yet) refl);
        there = rw (one_more) (ap (cons_to x) w.there);
      },
    )
write_all-Written (b ∷ memory) (suc at) (x ∷ xs) h =
    let (new, w) = write_all-Written memory at (x ∷ xs) (omega arith) in
    let one_more : suc at + suc (length xs) ≡ suc (at + suc (length xs)) = omega arith in
    (
      b ∷ new,
      record {
        done = rw (w.done) refl;
        length_kept = ap suc w.length_kept;
        before = λ n le. read-before b b at new memory w.before n le refl;
        there =
            rw (one_more) (ap (cons_to b) w.there ∙ cons_to-then_all b (read at memory) (x ∷ xs));
      },
    )

pub read_self : (xs : List ℕ) → read (length xs) xs ≡ some xs
unfolding read
read_self [] = refl
read_self (x ∷ xs) = rw (read_self xs) refl

-- What is copied to new memory can be read there.
pub copied :
    (memory old : List ℕ) (k : ℕ)
    → length old ≤ length memory
    → k ≤ length old
    → (new : List ℕ) × (write_all memory 0 old ≡ some new)
      × (length new ≡ length memory)
      × (read k new ≡ read k old)
unfolding read
copied memory old k fits le =
    let (new, w) = write_all-Written memory 0 old (omega arith) in
    let long = w.length_kept in
    let plain : 0 + length old ≡ length old = omega arith in
    (
      new,
      w.done,
      long,
      read-shorter (0 + length old) k new old (omega arith) (omega arith)
          (w.there ∙ sym (ap (λ n. read n old) plain ∙ read_self old)) (omega arith),
    )

pub read_nothing : (memory : List ℕ) → read 0 memory ≡ some []
unfolding read
read_nothing memory = refl
