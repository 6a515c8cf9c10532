-- ===== src/Stl/Memory.antt =====
-- src/STL/Memory/Memory.cpp: copying and filling memory, which is a function from addresses to
-- bytes. A move of a word reads its bytes before it writes any.
pub mod Copy
pub mod Overlap
mod Tests
use electric_os.Base.{
  ℕ, zero, suc, ◌+◌, ◌-◌, ◌*◌, ◌%◌, Bool, true, false, ◌&&◌, ltb, leb, ◌==◌, if◌then◌else◌, Option,
  none, some, u64,
}

-- `SetMemory`
pub set_memory : (ℕ → ℕ) → ℕ → ℕ → ℕ → ℕ → ℕ
set_memory m dest value count a = if leb dest a && ltb a (dest + count) then value % 256 else m a

-- A move of `width` bytes.
pub move : ℕ → (ℕ → ℕ) → ℕ → ℕ → ℕ → ℕ
move width m source dest a =
    if leb dest a && ltb a (dest + width) then m (source + (a - dest)) else m a

-- Eight moves of words.
pub move_block : (ℕ → ℕ) → ℕ → ℕ → ℕ → ℕ
move_block m source dest =
    let m1 = move 8 m source dest in
    let m2 = move 8 m1 (source + 8) (dest + 8) in
    let m3 = move 8 m2 (source + 16) (dest + 16) in
    let m4 = move 8 m3 (source + 24) (dest + 24) in
    let m5 = move 8 m4 (source + 32) (dest + 32) in
    let m6 = move 8 m5 (source + 40) (dest + 40) in
    let m7 = move 8 m6 (source + 48) (dest + 48) in move 8 m7 (source + 56) (dest + 56)

-- The second loop, which moves bytes.
pub copy_bytes : ℕ → (ℕ → ℕ) → ℕ → ℕ → ℕ → Option (ℕ → ℕ)
copy_bytes zero m source dest final = none
copy_bytes (suc fuel) m source dest final =
    let rest = copy_bytes fuel (move 1 m source dest) (u64 (source + 1)) (u64 (dest + 1)) final in
    if ltb source final then rest else some m

-- The first loop, and then the second; `none` is a loop that runs out of fuel.
pub copy_blocks : ℕ → (ℕ → ℕ) → ℕ → ℕ → ℕ → Option (ℕ → ℕ)
copy_blocks zero m source dest final = none
copy_blocks (suc fuel) m source dest final =
    let rest =
      copy_blocks fuel (move_block m source dest) (u64 (source + 64)) (u64 (dest + 64)) final in
    if ltb (u64 (source + 64)) final then rest else copy_bytes (suc fuel) m source dest final

-- `CopyMemory`
pub copy_memory : ℕ → (ℕ → ℕ) → ℕ → ℕ → ℕ → Option (ℕ → ℕ)
copy_memory fuel m source dest count = copy_blocks fuel m source dest (u64 (source + count))
