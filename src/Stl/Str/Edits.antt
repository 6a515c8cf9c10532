-- ===== src/Stl/Str/Edits.antt =====
-- A sequence of edits does to a string what it does to the characters.
use electric_os.Base.{
  ◌>>=◌, ℕ, zero, suc, ◌+◌, ◌^◌, ◌≤◌, ◌<◌, List, [], ◌∷◌, ◌++◌, length, Option, some, ◌≡◌, ◌⊎◌, inl,
  inr, refl, arith, ap, sym, ◌∙◌,
}
use electric_os.Stl.Str.{
  Str, empty, read, cons_to, append_char, assign_char, assign, append, cstr, pop,
}
use electric_os.Stl.Str.Buffer.{read_total, write_all-Written, read_nothing, or_nil}
use electric_os.Stl.Str.View.{
  Holds, Holds-inside, append_char-Holds, assign_char-Holds, assign-Holds, append-Holds,
}

pub data Edit : Type 0 where
  push_one : ℕ → Edit
  push_text : List ℕ → Edit
  become_one : ℕ → Edit
  become_text : List ℕ → Edit
  pop_one : Edit

pub drop_last : List ℕ → List ℕ
drop_last [] = []
drop_last (x ∷ []) = []
drop_last (x ∷ y ∷ xs) = x ∷ drop_last (y ∷ xs)

-- What an edit means.
unfoldable pub edited : List ℕ → Edit → List ℕ
edited xs (push_one c) = xs ++ (c ∷ [])
edited xs (push_text ys) = xs ++ ys
edited xs (become_one c) = c ∷ []
edited xs (become_text ys) = ys
edited xs pop_one = drop_last xs

-- What the code does.
pub edit : (ℕ → List ℕ) → Str → Edit → Option Str
edit malloc s (push_one c) = append_char malloc s c
edit malloc s (push_text ys) = append malloc s ys
edit malloc s (become_one c) = assign_char malloc s c
edit malloc s (become_text ys) = assign malloc s ys
edit malloc s pop_one = do (t, c) ← pop s; some t

pub edit_all : (ℕ → List ℕ) → Str → List Edit → Option Str
edit_all malloc s [] = some s
edit_all malloc s (e ∷ es) = do t ← edit malloc s e; edit_all malloc t es

pub edited_all : List ℕ → List Edit → List ℕ
edited_all xs [] = xs
edited_all xs (e ∷ es) = edited_all (edited xs e) es

-- The sizes that the code computes fit in 31 bits, and nothing is taken from an empty string.
unfoldable pub IsFit : List ℕ → Edit → Type 0
IsFit xs (push_one c) = length xs + 2 < 2 ^ 31
IsFit xs (push_text ys) = length xs + length ys + 1 < 2 ^ 31
IsFit xs (become_one c) = Unit
IsFit xs (become_text ys) = length ys + 1 < 2 ^ 31
IsFit xs pop_one = 1 ≤ length xs

unfoldable pub AreFit : List ℕ → List Edit → Type 0
unfolding edited
AreFit xs [] = Unit
AreFit xs (e ∷ es) = IsFit xs e × AreFit (edited xs e) es

read-drop_last : (n : ℕ) (xs : List ℕ) → length xs ≡ suc n → read n xs ≡ some (drop_last xs)
unfolding read drop_last
read-drop_last n [] e = absurd (omega arith)
read-drop_last zero (x ∷ []) e = refl
read-drop_last (suc n) (x ∷ []) e = absurd (omega arith)
read-drop_last zero (x ∷ y ∷ xs) e = absurd (omega arith)
read-drop_last (suc n) (x ∷ y ∷ xs) e = ap (cons_to x) (read-drop_last n (y ∷ xs) (omega arith))

length-drop_last : (n : ℕ) (xs : List ℕ) → length xs ≡ suc n → length (drop_last xs) ≡ n
unfolding drop_last
length-drop_last n [] e = absurd (omega arith)
length-drop_last n (x ∷ []) e = omega arith
length-drop_last zero (x ∷ y ∷ xs) e = absurd (omega arith)
length-drop_last (suc n) (x ∷ y ∷ xs) e = ap suc (length-drop_last n (y ∷ xs) (omega arith))

empty-Holds : Holds empty []
empty-Holds = record {
  characters = read_nothing [];
  counted = refl;
  allocated = refl;
  room = inr (refl, refl);
}

pop-Holds :
    (malloc : ℕ → List ℕ) (memory : List ℕ) (size reserved : ℕ) (xs : List ℕ)
    → 1 ≤ length xs
    → Holds (record { memory = memory; size = size; reserved_size = reserved }) xs
    → (t : Str) × (edit malloc
          (record { memory = memory; size = size; reserved_size = reserved })
          pop_one
        ≡ some t)
      × Holds t (drop_last xs)
unfolding edit pop
pop-Holds malloc memory zero reserved xs left holds = absurd (let c = holds.counted in omega arith)
pop-Holds malloc memory (suc n) reserved xs left holds =
    let s : Str = record { memory = memory; size = suc n; reserved_size = reserved } in
    let (ys, same, long, shorter) = read_total (suc n) memory (Holds-inside s xs holds) in
    let alike : ys ≡ xs = ap or_nil (sym same ∙ holds.characters) in
    (
      record s { size = n },
      rw (holds.characters) refl,
      record {
        characters =
            shorter n (omega arith) ∙ ap (read n) alike ∙ read-drop_last n xs holds.counted;
        counted = length-drop_last n xs holds.counted;
        allocated = holds.allocated;
        room = inl (less holds.room);
      },
    )
  where
    less : (suc n < reserved) ⊎ ((memory ≡ []) × (suc n ≡ 0)) → n < reserved
    less (inl h) = omega arith
    less (inr (h, e)) = absurd (omega arith)

module _ (malloc : ℕ → List ℕ) (sized : (n : ℕ) → length (malloc n) ≡ n) where
  edit-Holds :
      (s : Str) (xs : List ℕ) (e : Edit)
      → Holds s xs
      → IsFit xs e
      → (t : Str) × (edit malloc s e ≡ some t) × Holds t (edited xs e)
  unfolding edit edited IsFit
  edit-Holds s xs (push_one c) holds fit =
      append_char-Holds malloc sized s xs c holds (let n = holds.counted in omega arith)
  edit-Holds s xs (push_text ys) holds fit =
      append-Holds malloc sized s xs ys holds (let n = holds.counted in omega arith)
  edit-Holds s xs (become_one c) holds fit = assign_char-Holds malloc sized s xs c holds
  edit-Holds s xs (become_text ys) holds fit = assign-Holds malloc sized s xs ys holds fit
  edit-Holds s xs pop_one holds fit = pop-Holds malloc s.memory s.size s.reserved_size xs fit holds

  edit_all-Holds :
      (s : Str) (xs : List ℕ) (es : List Edit)
      → Holds s xs
      → AreFit xs es
      → (t : Str) × (edit_all malloc s es ≡ some t) × Holds t (edited_all xs es)
  unfolding edit_all edited_all AreFit
  edit_all-Holds s xs [] holds fit = (s, refl, holds)
  edit_all-Holds s xs (e ∷ es) holds (fit, more) =
      let (t, is, there) = edit-Holds s xs e holds fit in
      let (u, then, last) = edit_all-Holds t (edited xs e) es there more in (u, rw (is) then, last)

  -- From an empty string, with memory as large as asked for, a sequence of appends,
  -- assignments and pops that fits in 31 bits and takes nothing from an empty string accesses
  -- nothing outside of the memory, and leaves the characters that the same edits leave in a
  -- list, with room for the terminator.
  pub edit_all_lem :
      (es : List Edit)
      → AreFit [] es
      → (t : Str) × (edit_all malloc empty es ≡ some t) × Holds t (edited_all [] es)
  edit_all_lem es fit = edit_all-Holds empty [] es empty-Holds fit

-- On a string that holds some characters and has memory, `cstr` writes its terminator inside of
-- the memory, gives the characters, and leaves them.
pub cstr-Holds :
    (s : Str) (xs : List ℕ)
    → Holds s xs
    → 1 ≤ s.reserved_size
    → (t : Str) × (cstr s ≡ some (t, xs)) × Holds t xs
unfolding cstr
cstr-Holds s xs holds some_memory =
    let inside = within holds.room in
    let (m, w) =
      write_all-Written s.memory s.size (0 ∷ []) (let l = holds.allocated in omega arith) in
    let chars = w.before s.size (omega arith) ∙ holds.characters in
    (
      record s { memory = m },
      rw (w.done, chars) refl,
      record {
        characters = chars;
        counted = holds.counted;
        allocated = w.length_kept ∙ holds.allocated;
        room = inl inside;
      },
    )
  where
    within :
        (s.size < s.reserved_size) ⊎ ((s.memory ≡ []) × (s.size ≡ 0)) → s.size < s.reserved_size
    within (inl h) = h
    within (inr (e, z)) = absurd (let l = holds.allocated in let k = ap length e in omega arith)
