-- ===== src/Memory/Heap/Free.antt =====
-- `Free` of Heap.cpp: the segment is marked, and one pass joins free neighbours.
pub mod Join
use electric_os.Base.{
  ℕ, zero, suc, ◌+◌, ◌^◌, ◌≤◌, ◌<◌, ◌≡◌, refl, true, false, ◌&&◌, arith, ◌==◌, if◌then◌else◌, u64,
  sub64, Bool-cases, inl, inr, ◌⊎◌, List, [], ◌∷◌, length, ◌∙◌, ap, sym, subst,
}
use electric_os.Memory.Heap.{Segment, Heap, Walk, done, write, set_free, join_loop, free}
use electric_os.Memory.Heap.Chain.{
  Block, block, Chain, Spaced, Spaced-le, Spaced-lower, Holds, head_of, Chain-write,
}
use electric_os.Memory.Heap.Sizes.{footprint}
use electric_os.Memory.Heap.Free.Join.{join, footprint-join, join-Spaced, Joined, join_loop-join}

-- The segment at address `p` becomes free.
pub release : ℕ → List Block → List Block
release p [] = []
release p (b ∷ bs) = (if b.addr == p then block b.addr b.size true else b) ∷ release p bs

pub footprint-release : (p : ℕ) (bs : List Block) → footprint (release p bs) ≡ footprint bs
unfolding release
footprint-release p [] = refl
footprint-release p (b ∷ bs) = ground (arith, footprint-release p bs)

-- `p` is the header of a segment of the list.
abbrev pub IsHeader : ℕ → List Block → Type 0
IsHeader p [] = ⊥
IsHeader p (b ∷ bs) = (b.addr ≡ p) ⊎ IsHeader p bs

IsHeader-le : (p lo hi : ℕ) (bs : List Block) → Spaced lo bs hi → IsHeader p bs → lo ≤ p
IsHeader-le p lo hi [] s i = absurd i
IsHeader-le p lo hi (b ∷ bs) s (inl e) = omega arith
IsHeader-le p lo hi (b ∷ bs) s (inr i) =
    omega (arith, IsHeader-le p (b.addr + 24 + b.size) hi bs s.1 i)

IsHeader-lt : (p lo hi : ℕ) (bs : List Block) → Spaced lo bs hi → IsHeader p bs → p < hi
IsHeader-lt p lo hi [] s i = absurd i
IsHeader-lt p lo hi (b ∷ bs) s (inl e) = omega (arith, Spaced-le (b.addr + 24 + b.size) hi bs s.1)
IsHeader-lt p lo hi (b ∷ bs) s (inr i) = IsHeader-lt p (b.addr + 24 + b.size) hi bs s.1 i

-- below a header nothing is released
release-below : (p lo hi : ℕ) (bs : List Block) → p < lo → Spaced lo bs hi → release p bs ≡ bs
unfolding release
release-below p lo hi [] lt s = refl
release-below p lo hi (b ∷ bs) lt s = ground (arith, release-below p (b.addr + 24 + b.size) hi bs)

head_of-release : (p : ℕ) (bs : List Block) → head_of (release p bs) ≡ head_of bs
unfolding release
head_of-release p [] = refl
head_of-release p (b ∷ bs) = ground arith

release-Spaced : (p lo hi : ℕ) (bs : List Block) → Spaced lo bs hi → Spaced lo (release p bs) hi
unfolding release
release-Spaced p lo hi [] s = s
release-Spaced p lo hi (b ∷ bs) s =
    ground (arith, release-Spaced p (b.addr + 24 + b.size) hi bs s.1)

length-release : (p : ℕ) (bs : List Block) → length (release p bs) ≡ length bs
unfolding release
length-release p [] = refl
length-release p (b ∷ bs) = ap suc (length-release p bs)

set_free-release :
    (bs : List Block) (h : Heap) (p lo hi : ℕ)
    → Chain h bs
    → Spaced lo bs hi
    → IsHeader p bs
    → Chain (set_free h p true) (release p bs)
set_free-release [] h p lo hi c s i = absurd i
set_free-release (b ∷ bs) h p lo hi c s (inl e) =
    subst (λ (q : ℕ). Chain (set_free h q true) (release q (b ∷ bs))) e (rw released (header, rest))
  where
    released : release b.addr (b ∷ bs) ≡ block b.addr b.size true ∷ bs
    released =
        unfold release in
        ground (arith, release-below b.addr (b.addr + 24 + b.size) hi bs (omega arith) s.1)

    rest : Chain (set_free h b.addr true) bs
    rest =
        unfold set_free in Chain-write h b.addr _ (b.addr + 24 + b.size) hi bs (omega arith) s.1 c.1

    header :
        (set_free h b.addr true).segments b.addr
        ≡ record { next = head_of bs; size = b.size; free = true }
    header = unfold set_free write in rw (c.0) (ground arith)
set_free-release (b ∷ bs) h p lo hi c s (inr i) =
    step (set_free-release bs h p (b.addr + 24 + b.size) hi c.1 s.1 i)
  where
    above : b.addr < p
    above = omega (arith, IsHeader-le p (b.addr + 24 + b.size) hi bs s.1 i)

    apart : (b.addr == p) ≡ false
    apart = ground (arith, above)

    kept : release p (b ∷ bs) ≡ b ∷ release p bs
    kept = unfold release in rw apart refl

    seg : ℕ → Segment
    seg x = record { next = x; size = b.size; free = b.free }

    header : (set_free h p true).segments b.addr ≡ seg (head_of bs)
    header = unfold set_free write in rw apart c.0

    step : Chain (set_free h p true) (release p bs) → Chain (set_free h p true) (release p (b ∷ bs))
    step r = rw kept (header ∙ ap (λ (x : ℕ). seg x) (sym (head_of-release p bs)), r)

-- On a heap that holds a list of segments, with fuel for each of them, `Free` of a segment's
-- bytes ends; the heap then holds the list in which that segment is free and free neighbours are
-- joined in one pass, it starts at the same segment, its segments do not overlap, and the list
-- takes as many bytes as before.
pub free-join :
    (h : Heap) (b : Block) (bs : List Block) (hi fuel p : ℕ)
    → Holds h b bs hi
    → IsHeader p (b ∷ bs)
    → length (b ∷ bs) < fuel
    → (h' : Heap) × (free fuel h (p + 24) ≡ done h')
      × Chain h' (join (release p (b ∷ bs)))
      × (h'.first_segment ≡ h.first_segment)
      × Spaced 1 (join (release p (b ∷ bs))) hi
      × (footprint (join (release p (b ∷ bs))) ≡ footprint (b ∷ bs))
unfolding set_free
free-join h b bs hi fuel p holds header len = (
  j.heap,
  freed,
  j.chain,
  j.same_first,
  join-Spaced 1 hi (release p (b ∷ bs)) spaced,
  footprint-join (release p (b ∷ bs)) ∙ footprint-release p (b ∷ bs),
)
  where
    spaced : Spaced 1 (release p (b ∷ bs)) hi
    spaced = release-Spaced p 1 hi (b ∷ bs) holds.spaced

    inside : p < 2 ^ 64
    inside = omega (arith, IsHeader-lt p 1 hi (b ∷ bs) holds.spaced header, holds.in_memory)

    j :
        Joined
          (set_free h p true)
          1
          (join (release p (b ∷ bs)))
          (join_loop fuel (set_free h p true) (head_of (release p (b ∷ bs))))
    j =
        join_loop-join (release p (b ∷ bs)) fuel 1 hi (set_free h p true)
          (set_free-release (b ∷ bs) h p 1 hi holds.chain holds.spaced header) spaced (omega arith)
          holds.in_memory (omega (arith, length-release p (b ∷ bs)))

    address : sub64 (p + 24) 24 ≡ p
    address = omega (arith, inside)

    first : (set_free h p true).first_segment ≡ head_of (release p (b ∷ bs))
    first = unfold set_free write in holds.first ∙ sym (head_of-release p (b ∷ bs))

    freed : free fuel h (p + 24) ≡ done j.heap
    freed =
        unfold free in
        rw address (ap (λ (q : ℕ). join_loop fuel (set_free h p true) q) first ∙ j.ends)
