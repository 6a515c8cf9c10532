-- ===== src/Stl/Str/View.antt =====
-- What the operations do to the characters that a string holds.
use electric_os.Base.{
  ℕ, ◌+◌, ◌-◌, ◌*◌, ◌^◌, ◌≤◌, ◌<◌, List, [], ◌∷◌, ◌++◌, length, leb, some, u32, ◌≡◌, ◌⊎◌, inl, inr,
  refl, arith, ap, sym, ◌∙◌, Bool-cases, subst, length-append,
}
use electric_os.Stl.Str.{Str, write_all, read, reserve, append_char, assign_char, assign, append}
use electric_os.Stl.Str.Buffer.{write_all-Written, read_total, read_nothing, copied, then_all}

-- The string holds these characters, and its memory has room for the terminator, if there is any.
pub record Holds (s : Str) (xs : List ℕ) : Type 0 where
  pub characters : read s.size s.memory ≡ some xs
  pub counted : length xs ≡ s.size
  pub allocated : length s.memory ≡ s.reserved_size
  pub room : (s.size < s.reserved_size) ⊎ ((s.memory ≡ []) × (s.size ≡ 0))

pub Holds-inside : (s : Str) (xs : List ℕ) → Holds s xs → s.size ≤ length s.memory
Holds-inside s xs holds = from holds.room
  where
    from : (s.size < s.reserved_size) ⊎ ((s.memory ≡ []) × (s.size ≡ 0)) → s.size ≤ length s.memory
    from (inl less) = (let l = holds.allocated in omega arith)
    from (inr (e, z)) = omega arith

old_lem :
    (memory : List ℕ) (n k : ℕ)
    → (n ≤ length memory) ⊎ (memory ≡ [])
    → k ≤ n
    → k ≤ length memory
    → (old : List ℕ) × (elim memory [ [] ↦ some [] | b ∷ rest ↦ read n (b ∷ rest) ] ≡ some old)
      × (length old ≤ length memory)
      × (k ≤ length old)
      × (read k old ≡ read k memory)
old_lem [] n k whole le inside = ([], refl, omega arith, inside, refl)
old_lem (b ∷ rest) n k (inr e) le inside = absurd (let l = ap length e in omega arith)
old_lem (b ∷ rest) n k (inl whole) le inside =
    let (xs, e, l, shorter) = read_total n (b ∷ rest) whole in
    (xs, e, omega arith, omega arith, sym (shorter k le))

module _ (malloc : ℕ → List ℕ) (sized : (n : ℕ) → length (malloc n) ≡ n) where
  -- After `Reserve`, a write from a place among the characters on.
  pub record Grown (s : Str) (min k : ℕ) (xs ys : List ℕ) (t : Str) (m : List ℕ) : Type 0 where
    pub reserved : reserve malloc s min ≡ some t
    pub same_size : t.size ≡ s.size
    pub written : write_all t.memory k ys ≡ some m
    pub allocated : length m ≡ t.reserved_size
    pub enough : min ≤ t.reserved_size
    pub characters : read (k + length ys) m ≡ some (xs ++ ys)

  then_write :
      (s t : Str) (min k : ℕ) (xs ys : List ℕ)
      → reserve malloc s min ≡ some t
      → t.size ≡ s.size
      → length t.memory ≡ t.reserved_size
      → min ≤ t.reserved_size
      → k + length ys ≤ min
      → read k t.memory ≡ some xs
      → (m : List ℕ) × Grown s min k xs ys t m
  then_write s t min k xs ys done same long enough fits chars =
      let (m, w) = write_all-Written t.memory k ys (omega arith) in
      (
        m,
        record {
          reserved = done;
          same_size = same;
          written = w.done;
          allocated = w.length_kept ∙ long;
          enough = enough;
          characters = w.there ∙ ap (λ o. then_all o ys) chars;
        },
      )

  pub reserve-write :
      (s : Str) (min k : ℕ) (xs ys : List ℕ)
      → length s.memory ≡ s.reserved_size
      → (s.size ≤ length s.memory) ⊎ (s.memory ≡ [])
      → min < 2 ^ 31
      → k ≤ s.size
      → k ≤ length s.memory
      → k + length ys ≤ min
      → read k s.memory ≡ some xs
      → (t : Str) × (m : List ℕ) × Grown s min k xs ys t m
  unfolding reserve
  reserve-write s min k xs ys long whole small le inside fits chars =
      elim (Bool-cases (leb min s.reserved_size)) [
        | inl e ↦
            let done : reserve malloc s min ≡ some s = rw (e) refl in
            let (m, grown) = then_write s s min k xs ys done refl long (ground arith) fits chars in
            (s, m, grown)
        | inr e ↦
            let (old, is, short, deep, alike) = old_lem s.memory s.size k whole le inside in
            let size = sized (u32 (min * 2)) in
            let (new, put, long', read_new) =
              copied (malloc (u32 (min * 2))) old k (ground arith) deep in
            let t : Str = record s { memory = new; reserved_size = u32 (min * 2) } in
            let done : reserve malloc s min ≡ some t = rw (e, is, put) refl in
            let (m, grown) =
              then_write s t min k xs ys done refl (long' ∙ size) (omega arith) fits
                (read_new ∙ alike ∙ chars) in
            (t, m, grown)
      ]

  pub append_char-Holds :
      (s : Str) (xs : List ℕ) (c : ℕ)
      → Holds s xs
      → s.size + 2 < 2 ^ 31
      → (t : Str) × (append_char malloc s c ≡ some t) × Holds t (xs ++ (c ∷ []))
  unfolding append_char
  append_char-Holds s xs c holds small =
      let (t, m, g) =
        reserve-write (record s { size = s.size + 1 }) (s.size + 2) s.size xs (c ∷ [])
          holds.allocated (fitting holds.room) (omega arith) (omega arith) (Holds-inside s xs holds)
          (omega arith) holds.characters in
      from t m g
    where
      fitting :
          (s.size < s.reserved_size) ⊎ ((s.memory ≡ []) × (s.size ≡ 0))
          → (s.size + 1 ≤ length s.memory) ⊎ (s.memory ≡ [])
      fitting (inl less) = inl (let l = holds.allocated in omega arith)
      fitting (inr (e, z)) = inr e

      from :
          (t : Str) (m : List ℕ)
          → Grown (record s { size = s.size + 1 }) (s.size + 2) s.size xs (c ∷ []) t m
          → (u : Str) × (append_char malloc s c ≡ some u) × Holds u (xs ++ (c ∷ []))
      from t m g =
          let one_more : u32 (s.size + 1) ≡ s.size + 1 = omega arith in
          let two_more : u32 (s.size + 1 + 1) ≡ s.size + 2 = omega arith in
          let last : s.size + 1 - 1 ≡ s.size = omega arith in
          (
            record t { memory = m; size = s.size + 1 },
            rw (one_more, two_more, g.reserved, g.same_size, last, g.written) refl,
            record {
              characters = g.characters;
              counted = (let a = length-append xs (c ∷ []) in let b = holds.counted in omega arith);
              allocated = g.allocated;
              room = inl (let e = g.enough in omega arith);
            },
          )

  pub assign_char-Holds :
      (s : Str) (xs : List ℕ) (c : ℕ)
      → Holds s xs
      → (t : Str) × (assign_char malloc s c ≡ some t) × Holds t (c ∷ [])
  unfolding assign_char
  assign_char-Holds s xs c holds =
      let (t, m, g) =
        reserve-write s 2 0 [] (c ∷ []) holds.allocated (inl (Holds-inside s xs holds))
          (omega arith) (omega arith) (omega arith) (omega arith) (read_nothing s.memory) in
      from t m g
    where
      from :
          (t : Str) (m : List ℕ)
          → Grown s 2 0 [] (c ∷ []) t m
          → (u : Str) × (assign_char malloc s c ≡ some u) × Holds u (c ∷ [])
      from t m g = (
        record t { memory = m; size = 1 },
        rw (g.reserved, g.written) refl,
        record {
          characters = g.characters;
          counted = refl;
          allocated = g.allocated;
          room = inl (let e = g.enough in omega arith);
        },
      )

  pub assign-Holds :
      (s : Str) (xs other : List ℕ)
      → Holds s xs
      → length other + 1 < 2 ^ 31
      → (t : Str) × (assign malloc s other ≡ some t) × Holds t other
  unfolding assign
  assign-Holds s xs other holds small =
      let (t, m, g) =
        reserve-write s (length other + 1) 0 [] other holds.allocated
          (inl (Holds-inside s xs holds)) small (omega arith) (omega arith) (omega arith)
          (read_nothing s.memory) in
      from t m g
    where
      from :
          (t : Str) (m : List ℕ)
          → Grown s (length other + 1) 0 [] other t m
          → (u : Str) × (assign malloc s other ≡ some u) × Holds u other
      from t m g =
          let one_more : u32 (length other + 1) ≡ length other + 1 = omega arith in
          let plain : 0 + length other ≡ length other = omega arith in
          (
            record t { memory = m; size = length other },
            rw (one_more, g.reserved, g.written) refl,
            record {
              characters = subst (λ n. read n m ≡ some other) plain g.characters;
              counted = refl;
              allocated = g.allocated;
              room = inl (let e = g.enough in omega arith);
            },
          )

  pub append-Holds :
      (s : Str) (xs other : List ℕ)
      → Holds s xs
      → s.size + length other + 1 < 2 ^ 31
      → (t : Str) × (append malloc s other ≡ some t) × Holds t (xs ++ other)
  unfolding append
  append-Holds s xs other holds small =
      let inside = Holds-inside s xs holds in
      let (t, m, g) =
        reserve-write s (s.size + length other + 1) s.size xs other holds.allocated (inl inside)
          small (omega arith) inside (omega arith) holds.characters in
      from t m g
    where
      from :
          (t : Str) (m : List ℕ)
          → Grown s (s.size + length other + 1) s.size xs other t m
          → (u : Str) × (append malloc s other ≡ some u) × Holds u (xs ++ other)
      from t m g =
          let one_more : u32 (s.size + length other + 1) ≡ s.size + length other + 1 =
            omega arith in
          let total : u32 (s.size + length other) ≡ s.size + length other = omega arith in
          (
            record t { memory = m; size = s.size + length other },
            rw (one_more, g.reserved, g.same_size, g.written, total) refl,
            record {
              characters = g.characters;
              counted = (let a = length-append xs other in let b = holds.counted in omega arith);
              allocated = g.allocated;
              room = inl (let e = g.enough in omega arith);
            },
          )
