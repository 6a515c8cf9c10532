-- ===== src/Memory/Heap/Sizes.antt =====
-- The statistics of Heap.cpp are the sums over the chain.
use electric_os.Base.{
  ℕ, zero, suc, ◌+◌, ◌*◌, ◌^◌, ◌≤◌, ◌<◌, ◌≡◌, refl, Bool, true, false, arith, ◌==◌, if◌then◌else◌,
  u64, List, [], ◌∷◌, length, ◌∙◌, ap,
}
use electric_os.Memory.Heap.{
  Heap, done, used_size_loop, free_size_loop, segment_amount_loop, get_used_size, get_free_size,
  get_segment_amount,
}
use electric_os.Memory.Heap.Chain.{Block, Chain, Spaced, Holds, head_of}

-- the size of a segment that counts under a status
abbrev pub share : Bool → Block → ℕ
share status b = if b.free then (if status then b.size else 0) else (if status then 0 else b.size)

abbrev pub total_size : Bool → List Block → ℕ
total_size status [] = 0
total_size status (b ∷ bs) = share status b + total_size status bs

-- all bytes of the chain, its headers included
abbrev pub footprint : List Block → ℕ
footprint [] = 0
footprint (b ∷ bs) = 24 + b.size + footprint bs

pub total_size-add :
    (bs : List Block) → total_size true bs + total_size false bs + 24 * length bs ≡ footprint bs
total_size-add [] = refl
total_size-add (b ∷ bs) = ground (arith, total_size-add bs)

pub footprint-le : (lo hi : ℕ) (bs : List Block) → Spaced lo bs hi → lo + footprint bs ≤ hi
footprint-le lo hi [] s = omega arith
footprint-le lo hi (b ∷ bs) s = omega (arith, footprint-le (b.addr + 24 + b.size) hi bs s.1)

share-le : (status : Bool) (b : Block) → share status b ≤ b.size
share-le status b = ground arith

module _ (h : Heap) where
  used-step :
      (fuel : ℕ) (b : Block) (bs : List Block) (acc : ℕ)
      → Chain h (b ∷ bs)
      → acc + b.size < 2 ^ 64
      → used_size_loop (suc fuel) h b.addr acc ≡ (
          if head_of bs == 0
          then done (acc + share false b)
          else used_size_loop fuel h (head_of bs) (acc + share false b))
  unfolding used_size_loop
  used-step fuel b bs acc c small = rw (c.0, sum) refl
    where
      sum : (if b.free then acc else u64 (acc + b.size)) ≡ acc + share false b
      sum = ground arith

  free-step :
      (fuel : ℕ) (b : Block) (bs : List Block) (acc : ℕ)
      → Chain h (b ∷ bs)
      → acc + b.size < 2 ^ 64
      → free_size_loop (suc fuel) h b.addr acc ≡ (
          if head_of bs == 0
          then done (acc + share true b)
          else free_size_loop fuel h (head_of bs) (acc + share true b))
  unfolding free_size_loop
  free-step fuel b bs acc c small = rw (c.0, sum) refl
    where
      sum : (if b.free then u64 (acc + b.size) else acc) ≡ acc + share true b
      sum = ground arith

  amount-step :
      (fuel : ℕ) (b : Block) (bs : List Block) (acc : ℕ)
      → Chain h (b ∷ bs)
      → acc + 1 < 2 ^ 64
      → segment_amount_loop (suc fuel) h b.addr acc ≡ (
          if head_of bs == 0
          then done (acc + 1)
          else segment_amount_loop fuel h (head_of bs) (acc + 1))
  unfolding segment_amount_loop
  amount-step fuel b bs acc c small = rw (c.0, sum) refl
    where
      sum : u64 (acc + 1) ≡ acc + 1
      sum = omega arith

skip : {A : Type 0} (n : ℕ) (x y : A) → 0 < n → (if n == 0 then x else y) ≡ y
skip n x y h = ground arith

module _ (h : Heap) (hi : ℕ) where
  used_size_loop-total :
      (bs : List Block) (fuel : ℕ) (b : Block) (lo acc : ℕ)
      → Chain h (b ∷ bs)
      → Spaced lo (b ∷ bs) hi
      → acc + footprint (b ∷ bs) < 2 ^ 64
      → length bs < fuel
      → used_size_loop fuel h b.addr acc ≡ done (acc + total_size false (b ∷ bs))
  used_size_loop-total bs zero b lo acc c s small len = absurd (omega arith)
  used_size_loop-total [] (suc fuel) b lo acc c s small len =
      used-step h fuel b [] acc c (omega arith) ∙ ap done (omega arith)
  used_size_loop-total (b' ∷ bs) (suc fuel) b lo acc c s small len =
      used-step h fuel b (b' ∷ bs) acc c (omega arith)
      ∙ skip b'.addr _ _ (omega arith)
      ∙ (used_size_loop-total bs fuel b' (b.addr + 24 + b.size) (acc + share false b) c.1 s.1
          (omega (arith, share-le false b)) (omega arith))
      ∙ ap done (omega arith)

  free_size_loop-total :
      (bs : List Block) (fuel : ℕ) (b : Block) (lo acc : ℕ)
      → Chain h (b ∷ bs)
      → Spaced lo (b ∷ bs) hi
      → acc + footprint (b ∷ bs) < 2 ^ 64
      → length bs < fuel
      → free_size_loop fuel h b.addr acc ≡ done (acc + total_size true (b ∷ bs))
  free_size_loop-total bs zero b lo acc c s small len = absurd (omega arith)
  free_size_loop-total [] (suc fuel) b lo acc c s small len =
      free-step h fuel b [] acc c (omega arith) ∙ ap done (omega arith)
  free_size_loop-total (b' ∷ bs) (suc fuel) b lo acc c s small len =
      free-step h fuel b (b' ∷ bs) acc c (omega arith)
      ∙ skip b'.addr _ _ (omega arith)
      ∙ (free_size_loop-total bs fuel b' (b.addr + 24 + b.size) (acc + share true b) c.1 s.1
          (omega (arith, share-le true b)) (omega arith))
      ∙ ap done (omega arith)

  amount_loop-total :
      (bs : List Block) (fuel : ℕ) (b : Block) (lo acc : ℕ)
      → Chain h (b ∷ bs)
      → Spaced lo (b ∷ bs) hi
      → acc + footprint (b ∷ bs) < 2 ^ 64
      → length bs < fuel
      → segment_amount_loop fuel h b.addr acc ≡ done (acc + length (b ∷ bs))
  amount_loop-total bs zero b lo acc c s small len = absurd (omega arith)
  amount_loop-total [] (suc fuel) b lo acc c s small len =
      amount-step h fuel b [] acc c (omega arith) ∙ ap done (omega arith)
  amount_loop-total (b' ∷ bs) (suc fuel) b lo acc c s small len =
      amount-step h fuel b (b' ∷ bs) acc c (omega arith)
      ∙ skip b'.addr _ _ (omega arith)
      ∙ (amount_loop-total bs fuel b' (b.addr + 24 + b.size) (acc + 1) c.1 s.1 (omega arith)
          (omega arith))
      ∙ ap done (omega arith)

-- On a heap that holds a list of segments, with fuel for each of them, `GetUsedSize`,
-- `GetFreeSize` and `GetSegmentAmount` return the list's sums and length, and the sums with a
-- header for each segment are the bytes that the list takes.
pub sizes-total :
    (h : Heap) (b : Block) (bs : List Block) (hi fuel : ℕ)
    → Holds h b bs hi
    → length bs < fuel
    → (get_used_size fuel h ≡ done (total_size false (b ∷ bs)))
      × (get_free_size fuel h ≡ done (total_size true (b ∷ bs)))
      × (get_segment_amount fuel h ≡ done (length (b ∷ bs)))
      × (total_size true (b ∷ bs) + total_size false (b ∷ bs) + 24 * length (b ∷ bs)
          ≡ footprint (b ∷ bs))
unfolding get_used_size get_free_size get_segment_amount
sizes-total h b bs hi fuel holds len = (
  ap (λ (p : ℕ). used_size_loop fuel h p 0) holds.first
      ∙ used_size_loop-total h hi bs fuel b 1 0 holds.chain holds.spaced small len
      ∙ ap done (omega arith),
  ap (λ (p : ℕ). free_size_loop fuel h p 0) holds.first
      ∙ free_size_loop-total h hi bs fuel b 1 0 holds.chain holds.spaced small len
      ∙ ap done (omega arith),
  ap (λ (p : ℕ). segment_amount_loop fuel h p 0) holds.first
      ∙ amount_loop-total h hi bs fuel b 1 0 holds.chain holds.spaced small len
      ∙ ap done (omega arith),
  total_size-add (b ∷ bs),
)
  where
    small : 0 + footprint (b ∷ bs) < 2 ^ 64
    small = omega (arith, footprint-le 1 hi (b ∷ bs) holds.spaced, holds.in_memory)
