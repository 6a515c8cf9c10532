-- ===== src/Memory/Heap/FirstFit.antt =====
-- First fit on a list of segments, which `Allocate` of Heap.cpp refines.
use electric_os.Base.{
  ℕ, ◌+◌, ◌-◌, ◌≤◌, ◌<◌, ◌≡◌, refl, true, false, ◌&&◌, ◌||◌, arith, ltb, ◌==◌, if◌then◌else◌,
  Bool-cases, inl, inr, ◌⊎◌, List, [], ◌∷◌, ap, Option, none, some,
}
use electric_os.Memory.Heap.{Heap, Walk, done}
use electric_os.Memory.Heap.Chain.{Block, block, Chain, Spaced, Spaced-lower, head_of}

-- The pieces that a free segment is cut into: one, if the rest would be small.
unfoldable pub carve : ℕ → Block → List Block → List Block
carve n b bs =
    if ltb b.size 64 || ltb (b.size - n - 24) 4096
    then block b.addr b.size false ∷ bs
    else block b.addr (n - 24) false ∷ block (b.addr + 24 + n) (b.size - n - 24) true ∷ bs

abbrev pub behind : Block → Option (List Block × ℕ) → Option (List Block × ℕ)
behind b none = none
behind b (some (bs, p)) = some (b ∷ bs, p)

-- First fit: the chain that is left, and the address that is returned.
unfoldable pub first_fit : ℕ → List Block → Option (List Block × ℕ)
unfolding carve
first_fit n [] = none
first_fit n (b ∷ bs) =
    if b.free && (b.size == n)
    then some (block b.addr b.size false ∷ bs, b.addr + 24)
    else if b.free && ltb n b.size
    then some (carve n b bs, b.addr + 24)
    else behind b (first_fit n bs)

-- No free segment is larger than `n` by less than a header.
abbrev pub HasRoom : ℕ → List Block → Type 0
HasRoom n [] = Unit {0}
HasRoom n (b ∷ bs) = (b.free ≡ true → (b.size ≤ n) ⊎ (n + 24 ≤ b.size)) × HasRoom n bs

-- `h'` holds the chain `bs` where `h` held another from the same address on.
pub record Becomes (h : Heap) (at : ℕ) (bs : List Block) (h' : Heap) : Type 0 where
  pub chain : Chain h' bs
  pub head : head_of bs ≡ at
  pub below : (q : ℕ) → q < at → h'.segments q ≡ h.segments q
  pub same_first : h'.first_segment ≡ h.first_segment
  pub same_last : h'.last_segment ≡ h.last_segment

-- the answer of the search for the answer of first fit
pub data Answers (h : Heap) (at hi : ℕ)
    : Option (List Block × ℕ) → Walk (Option (Heap × ℕ)) → Type 0 where
  fits :
      {bs : List Block} {p : ℕ} {h' : Heap}
      → Becomes h at bs h'
      → Spaced at bs hi
      → Answers h at hi (some (bs, p)) (done (some (h', p)))
  fails : Answers h at hi none (done none)

-- The segment whose bytes start at `p` is in use, and `n` bytes from `p` on reach no other header.
abbrev pub Owns : ℕ → ℕ → List Block → ℕ → Type 0
Owns p n [] hi = ⊥
Owns p n (b ∷ bs) hi =
    ((p ≡ b.addr + 24) × (b.free ≡ false) × Spaced (p + n) bs hi) ⊎ Owns p n bs hi

-- A segment in use stands in the list.
abbrev pub InUse : Block → List Block → Type 0
InUse x [] = ⊥
InUse x (b ∷ bs) = ((b ≡ x) × (x.free ≡ false)) ⊎ InUse x bs

-- What first fit promises of its answer: the bytes belong to no other segment, and what was in use
-- still is.
abbrev pub IsSound : ℕ → List Block → ℕ → Option (List Block × ℕ) → Type 0
IsSound n bs hi none = Unit {0}
IsSound n bs hi (some (bs', p)) = Owns p n bs' hi × ((x : Block) → InUse x bs → InUse x bs')

module _ (b : Block) (bs : List Block) (n lo hi : ℕ) (s : Spaced lo (b ∷ bs) hi) where
  whole-IsSound :
      b.free ≡ true
      → b.size ≡ n
      → IsSound n (b ∷ bs) hi (some (block b.addr b.size false ∷ bs, b.addr + 24))
  whole-IsSound f e = (
    inl (refl, refl, Spaced-lower (b.addr + 24 + b.size) (b.addr + 24 + n) hi bs (omega arith) s.1),
    λ x u. still x u,
  )
    where
      still : (x : Block) → InUse x (b ∷ bs) → InUse x (block b.addr b.size false ∷ bs)
      still x (inl u) = absurd (used u)
        where
          used : (b ≡ x) × (x.free ≡ false) → ⊥
          used u = cc (f, ap (λ (y : Block). y.free) u.0, u.1)
      still x (inr u) = inr u

  carve-IsSound :
      b.free ≡ true → n + 24 ≤ b.size → IsSound n (b ∷ bs) hi (some (carve n b bs, b.addr + 24))
  carve-IsSound f room = elim (Bool-cases (ltb b.size 64 || ltb (b.size - n - 24) 4096)) [
    | inl small ↦
        unfold carve in
        rw small (
          inl (
            refl,
            refl,
            Spaced-lower (b.addr + 24 + b.size) (b.addr + 24 + n) hi bs (omega arith) s.1,
          ),
          λ x u. inr (behind_free x u),
        )
    | inr large ↦
        unfold carve in
        rw large (
          inl (
            refl,
            refl,
            (omega arith, Spaced-lower (b.addr + 24 + b.size) _ hi bs (omega arith) s.1),
          ),
          λ x u. inr (inr (behind_free x u)),
        )
  ]
    where
      behind_free : (x : Block) → InUse x (b ∷ bs) → InUse x bs
      behind_free x (inl u) = absurd (used u)
        where
          used : (b ≡ x) × (x.free ≡ false) → ⊥
          used u = cc (f, ap (λ (y : Block). y.free) u.0, u.1)
      behind_free x (inr u) = u

  behind-IsSound :
      (o : Option (List Block × ℕ)) → IsSound n bs hi o → IsSound n (b ∷ bs) hi (behind b o)
  behind-IsSound none g = tt
  behind-IsSound (some (bs', p)) g = (inr g.0, λ x u. still x u)
    where
      still : (x : Block) → InUse x (b ∷ bs) → InUse x (b ∷ bs')
      still x (inl u) = inl u
      still x (inr u) = inr (g.1 x u)

pub first_fit-IsSound :
    (bs : List Block) (n lo hi : ℕ)
    → Spaced lo bs hi
    → HasRoom n bs
    → IsSound n bs hi (first_fit n bs)
unfolding first_fit
first_fit-IsSound [] n lo hi s room = tt
first_fit-IsSound (b ∷ bs) n lo hi s room = elim (Bool-cases (b.free && (b.size == n))) [
  | inl e ↦ rw e (whole-IsSound b bs n lo hi s (ground arith) (ground arith))
  | inr e ↦ elim (Bool-cases (b.free && ltb n b.size)) [
    | inl e2 ↦ rw (e, e2) (carve-IsSound b bs n lo hi s (ground arith) (ground arith))
    | inr e2 ↦
        rw (e, e2)
          (behind-IsSound b bs n lo hi s (first_fit n bs)
            (first_fit-IsSound bs n (b.addr + 24 + b.size) hi s.1 room.1))
  ]
]
