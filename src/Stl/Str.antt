-- ===== src/Stl/Str.antt =====
-- src/STL/String/String.cpp: the buffer of a string. `malloc n` is the memory that an allocation of
-- `n` bytes returns, with what it holds; a C string is its characters up to the terminator.
pub mod Buffer
pub mod View
pub mod Edits
mod Tests
use electric_os.Base.{
  ◌>>=◌, ℕ, zero, suc, ◌+◌, ◌-◌, ◌*◌, Bool, true, false, List, [], ◌∷◌, ◌++◌, length, ltb, leb,
  ◌==◌, if◌then◌else◌, Option, none, some, u32, get_or,
}

-- `String`: no memory is `Data` being null. `none` below is an access outside of the memory.
pub record Str : Type 0 where
  pub memory : List ℕ
  pub size : ℕ
  pub reserved_size : ℕ

-- `String()`
abbrev pub empty : Str
empty = record { memory = []; size = 0; reserved_size = 0 }

abbrev pub cons_to : ℕ → Option (List ℕ) → Option (List ℕ)
cons_to x none = none
cons_to x (some xs) = some (x ∷ xs)

-- The loop that writes characters from an offset on.
pub write_all : List ℕ → ℕ → List ℕ → Option (List ℕ)
write_all memory at [] = some memory
write_all [] at (x ∷ xs) = none
write_all (b ∷ memory) zero (x ∷ xs) = cons_to x (write_all memory zero xs)
write_all (b ∷ memory) (suc at) (x ∷ xs) = cons_to b (write_all memory at (x ∷ xs))

-- The first bytes of the memory.
pub read : ℕ → List ℕ → Option (List ℕ)
read zero memory = some []
read (suc n) [] = none
read (suc n) (b ∷ memory) = cons_to b (read n memory)

-- What `Reserve` copies: nothing where there is no memory yet.
abbrev pub old_characters : Str → Option (List ℕ)
old_characters s = elim s.memory [ [] ↦ some [] | b ∷ memory ↦ read s.size (b ∷ memory) ]

-- `Reserve`
pub reserve : (ℕ → List ℕ) → Str → ℕ → Option Str
reserve malloc s min_size = if leb min_size s.reserved_size then some s else do
  old ← old_characters s
  new ← write_all (malloc (u32 (min_size * 2))) 0 old
  some (record s { memory = new; reserved_size = u32 (min_size * 2) })

-- `operator+=` of a character, which counts it before the memory grows.
pub append_char : (ℕ → List ℕ) → Str → ℕ → Option Str
append_char malloc s c = do
  t ← reserve malloc (record s { size = u32 (s.size + 1) }) (u32 (u32 (s.size + 1) + 1))
  memory ← write_all t.memory (t.size - 1) (c ∷ [])
  some (record t { memory = memory })

-- `operator=` of a character
pub assign_char : (ℕ → List ℕ) → Str → ℕ → Option Str
assign_char malloc s c = do
  t ← reserve malloc s 2
  memory ← write_all t.memory 0 (c ∷ [])
  some (record t { memory = memory; size = 1 })

-- `operator=` of a C string, which the constructor calls, too.
pub assign : (ℕ → List ℕ) → Str → List ℕ → Option Str
assign malloc s other = do
  t ← reserve malloc s (u32 (length other + 1))
  memory ← write_all t.memory 0 other
  some (record t { memory = memory; size = length other })

-- `operator+=` of a C string
pub append : (ℕ → List ℕ) → Str → List ℕ → Option Str
append malloc s other = do
  t ← reserve malloc s (u32 (s.size + length other + 1))
  memory ← write_all t.memory t.size other
  some (record t { memory = memory; size = u32 (t.size + length other) })

-- `cstr`, which writes the terminator.
pub cstr : Str → Option (Str × List ℕ)
cstr s = do
  memory ← write_all s.memory s.size (0 ∷ [])
  characters ← read s.size memory
  some (record s { memory = memory }, characters)

-- `Pop`; on an empty string the size wraps, and the character is outside of the memory.
pub pop : Str → Option (Str × ℕ)
pop s = elim s.size [
  | zero ↦ none
  | suc n ↦ do
    characters ← read (suc n) s.memory
    some (record s { size = n }, get_or characters n 0)
]
