-- ===== src/Memory/Heap/Chain.antt =====
-- A heap's chain as a list of segments, and the list's layout in memory.
use electric_os.Base.{ℕ, ◌+◌, ◌^◌, ◌≤◌, ◌<◌, ◌≡◌, Bool, arith, List, [], ◌∷◌}
use electric_os.Memory.Heap.{Segment, Heap, write}

pub record Block : Type 0 where
  pub addr : ℕ
  pub size : ℕ
  pub free : Bool

abbrev pub block : ℕ → ℕ → Bool → Block
block a n f = record { addr = a; size = n; free = f }

abbrev pub head_of : List Block → ℕ
head_of [] = 0
head_of (b ∷ bs) = b.addr

-- The headers of the list's segments, each leading to the next; the last one to null.
abbrev pub Chain : Heap → List Block → Type 0
Chain h [] = Unit {0}
Chain h (b ∷ bs) =
    (h.segments b.addr ≡ record { next = head_of bs; size = b.size; free = b.free }) × Chain h bs

-- The segments lie one behind the other between `lo` and `hi`, headers included.
abbrev pub Spaced : ℕ → List Block → ℕ → Type 0
Spaced lo [] hi = lo ≤ hi
Spaced lo (b ∷ bs) hi = (lo ≤ b.addr) × Spaced (b.addr + 24 + b.size) bs hi

-- The heap `h` holds the list `b ∷ bs`.
pub record Holds (h : Heap) (b : Block) (bs : List Block) (hi : ℕ) : Type 0 where
  pub first : h.first_segment ≡ b.addr
  pub chain : Chain h (b ∷ bs)
  pub spaced : Spaced 1 (b ∷ bs) hi
  pub in_memory : hi < 2 ^ 64

pub Spaced-le : (lo hi : ℕ) (bs : List Block) → Spaced lo bs hi → lo ≤ hi
Spaced-le lo hi [] s = s
Spaced-le lo hi (b ∷ bs) s = omega (arith, Spaced-le (b.addr + 24 + b.size) hi bs s.1)

pub Spaced-lower : (lo lo' hi : ℕ) (bs : List Block) → lo' ≤ lo → Spaced lo bs hi → Spaced lo' bs hi
Spaced-lower lo lo' hi [] p s = omega arith
Spaced-lower lo lo' hi (b ∷ bs) p s = (omega arith, s.1)

-- A write below the list leaves its chain alone.
pub Chain-write :
    (h : Heap) (p : ℕ) (s : Segment) (lo hi : ℕ) (bs : List Block)
    → p < lo
    → Spaced lo bs hi
    → Chain h bs
    → Chain (write h p s) bs
unfolding write
Chain-write h p s lo hi [] lt sp c = tt
Chain-write h p s lo hi (b ∷ bs) lt sp c =
    (ground arith, Chain-write h p s (b.addr + 24 + b.size) hi bs (omega arith) sp.1 c.1)
