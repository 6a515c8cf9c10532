-- ===== src/Acpi.antt =====
-- src/ACPI/ACPI.cpp: the search for a table of the firmware by its four letters. `letter` reads a
-- byte of the `Signature` of the header at an address.
mod Tests
use native.Mathlib.Decide.{ℕ_discrete}
use electric_os.Base.{
  ℕ, zero, suc, ◌+◌, ◌/◌, ◌^◌, ◌<◌, ◌≡◌, refl, arith, Bool, true, false, ◌&&◌, ltb, ◌==◌,
  if◌then◌else◌, u32, sub64, Option, none, some, Bool-cases, inl, inr, subst,
}

-- `XSDT`: its length in bytes, and the pointer at `sizeof(SDTHeader) + i * 8`.
pub record Xsdt : Type 0 where
  pub size : ℕ
  pub pointer : ℕ → ℕ

-- `Entries`, an `int`: there are no rounds where it is negative.
unfoldable pub entries : Xsdt → ℕ
entries x = let n = u32 (sub64 x.size 36 / 8) in if ltb n (2 ^ 31) then n else 0

module _ (letter : ℕ → ℕ → ℕ) (signature : ℕ → ℕ) where
  -- The inner loop, from letter `j` on.
  pub matches : ℕ → ℕ → ℕ → Bool
  matches zero header j = false
  matches (suc left) header j =
      let rest = matches left header (j + 1) in
      if letter header j == signature j then (if j == 3 then true else rest) else false

  -- The outer loop, with `left` entries to go from `i` on.
  pub search_tables : ℕ → Xsdt → ℕ → Option ℕ
  search_tables zero x i = none
  search_tables (suc left) x i =
      let rest = search_tables left x (i + 1) in
      if matches 4 (x.pointer i) 0 then some (x.pointer i) else rest

  -- `FindTable`: `none` is the null pointer.
  unfoldable pub find_table : Xsdt → Option ℕ
  unfolding matches search_tables
  find_table x = search_tables (entries x) x 0

  -- The header has the signature.
  abbrev pub Signed : ℕ → Type 0
  Signed header = (j : ℕ) → j < 4 → letter header j ≡ signature j

  matches-Signed : (header : ℕ) → matches 4 header 0 ≡ true → Signed header
  unfolding matches
  matches-Signed header e zero h = ground arith
  matches-Signed header e (suc zero) h = ground arith
  matches-Signed header e (suc (suc zero)) h = ground arith
  matches-Signed header e (suc (suc (suc zero))) h = ground arith
  matches-Signed header e (suc (suc (suc (suc j)))) h = absurd (omega arith)

  Signed-matches : (header : ℕ) → Signed header → matches 4 header 0 ≡ true
  unfolding matches
  Signed-matches header s =
      ground (arith, s 0 (omega arith), s 1 (omega arith), s 2 (omega arith), s 3 (omega arith))

  -- The first of the tables from `i` on that has the signature, if one has it.
  abbrev pub First : ℕ → Xsdt → ℕ → Option ℕ → Type 0
  First left x i none = (k : ℕ) → i < k + 1 → k < i + left → ¬ Signed (x.pointer k)
  First left x i (some p) =
      (k : ℕ) × (i < k + 1)
      × (k < i + left)
      × (p ≡ x.pointer k)
      × Signed p
      × ((j : ℕ) → i < j + 1 → j < k → ¬ Signed (x.pointer j))

  First-later :
      (left : ℕ) (x : Xsdt) (i : ℕ) (o : Option ℕ)
      → ¬ Signed (x.pointer i)
      → First left x (i + 1) o
      → First (suc left) x i o
  First-later left x i none other f = λ k low high s. elim (ℕ_discrete k i) [
    | yes e ↦ other (subst (λ (n : ℕ). Signed (x.pointer n)) e s)
    | no n ↦ f k (omega arith) (omega arith) s
  ]
  First-later left x i (some p) other (k, low, high, e, s, before) = (
    k,
    omega arith,
    omega arith,
    e,
    s,
    λ j l h t. elim (ℕ_discrete j i) [
      | yes q ↦ other (subst (λ (n : ℕ). Signed (x.pointer n)) q t)
      | no n ↦ before j (omega arith) h t
    ],
  )

  search_tables-First : (left : ℕ) (x : Xsdt) (i : ℕ) → First left x i (search_tables left x i)
  unfolding search_tables
  search_tables-First zero x i = λ k low high s. absurd (omega arith)
  search_tables-First (suc left) x i = elim (Bool-cases (matches 4 (x.pointer i) 0)) [
    | inl e ↦ rw e (
      i,
      omega arith,
      omega arith,
      refl,
      matches-Signed (x.pointer i) e,
      λ j l h t. absurd (omega arith),
    )
    | inr e ↦ rw e (
        First-later left x i (search_tables left x (i + 1))
          (λ s. cc (e, Signed-matches (x.pointer i) s)) (search_tables-First left x (i + 1)))
  ]

  pub find_table-First : (x : Xsdt) → First (entries x) x 0 (find_table x)
  unfolding find_table
  find_table-First x = search_tables-First (entries x) x 0
