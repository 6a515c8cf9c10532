-- ===== src/Memory/Heap/Free/Join.antt =====
-- The pass of `Free` of Heap.cpp that joins free neighbours, against a pass over the list.
use electric_os.Base.{
  ℕ, zero, suc, ◌+◌, ◌^◌, ◌≤◌, ◌<◌, ◌≡◌, refl, true, false, ◌&&◌, arith, ◌==◌, if◌then◌else◌, u64,
  Bool-cases, inl, inr, List, [], ◌∷◌, length, ◌∙◌, ap, sym,
}
use electric_os.Memory.Heap.{Segment, Heap, Walk, done, write, join_loop}
use electric_os.Memory.Heap.Chain.{
  Block, block, Chain, Spaced, Spaced-le, Spaced-lower, head_of, Chain-write,
}
use electric_os.Memory.Heap.Sizes.{footprint}

-- The pass over the list: a free neighbour behind a free segment is taken into it, once.
pub join : List Block → List Block
join [] = []
join (a ∷ []) = a ∷ []
join (a ∷ b ∷ bs) =
    if a.free && b.free
    then block a.addr (a.size + (b.size + 24)) a.free ∷ join bs
    else a ∷ join (b ∷ bs)

pub footprint-join : (bs : List Block) → footprint (join bs) ≡ footprint bs
unfolding join
footprint-join [] = refl
footprint-join (a ∷ []) = refl
footprint-join (a ∷ b ∷ bs) = ground (arith, footprint-join bs, footprint-join (b ∷ bs))

pub join-Spaced : (lo hi : ℕ) (bs : List Block) → Spaced lo bs hi → Spaced lo (join bs) hi
unfolding join
join-Spaced lo hi [] s = s
join-Spaced lo hi (a ∷ []) s = s
join-Spaced lo hi (a ∷ b ∷ bs) s = elim (Bool-cases (a.free && b.free)) [
  | inl e ↦ rw e (
    s.0,
    join-Spaced (a.addr + 24 + (a.size + (b.size + 24))) hi bs (
        Spaced-lower (b.addr + 24 + b.size) (a.addr + 24 + (a.size + (b.size + 24))) hi bs
          (omega arith) s.1.1),
  )
  | inr e ↦ rw e (s.0, join-Spaced (a.addr + 24 + a.size) hi (b ∷ bs) s.1)
]

head_of-join : (bs : List Block) → head_of (join bs) ≡ head_of bs
unfolding join
head_of-join [] = refl
head_of-join (a ∷ []) = refl
head_of-join (a ∷ b ∷ bs) = ground arith

-- `w` ends with a heap that holds the chain `bs` from `lo` on, and agrees with `h` below.
pub record Joined (h : Heap) (lo : ℕ) (bs : List Block) (w : Walk Heap) : Type 0 where
  pub heap : Heap
  pub ends : w ≡ done heap
  pub chain : Chain heap bs
  pub below : (q : ℕ) → q < lo → heap.segments q ≡ h.segments q
  pub same_first : heap.first_segment ≡ h.first_segment

-- `a` stays, and the pass goes on with the list behind it
stay :
    (h : Heap) (a : Block) (lo : ℕ) (bs : List Block) (w : Walk Heap)
    → lo ≤ a.addr
    → Chain h (a ∷ bs)
    → Joined h (a.addr + 24 + a.size) (join bs) w
    → Joined h lo (a ∷ join bs) w
stay h a lo bs w le c j = record {
  heap = j.heap;
  ends = j.ends;
  chain =
      (j.below a.addr (omega arith) ∙ c.0 ∙ ap (λ (x : ℕ). seg x) (sym (head_of-join bs)), j.chain);
  below = λ q l. j.below q (omega arith);
  same_first = j.same_first;
}
  where
    seg : ℕ → Segment
    seg x = record { next = x; size = a.size; free = a.free }

module _ (h : Heap) (a b : Block) (bs : List Block) (lo hi fuel : ℕ) (c : Chain h (a ∷ b ∷ bs))
    (s : Spaced lo (a ∷ b ∷ bs) hi) (pos : 0 < lo) (top : hi < 2 ^ 64) where
  both : Heap
  both = write h a.addr (record { next = head_of bs; size = a.size + (b.size + 24); free = a.free })

  no_wrap : u64 (a.size + (b.size + 24)) ≡ a.size + (b.size + 24)
  no_wrap = omega (arith, Spaced-le (b.addr + 24 + b.size) hi bs s.1.1)

  tail-Chain : Chain both bs
  unfolding both
  tail-Chain = Chain-write h a.addr _ (b.addr + 24 + b.size) hi bs (omega arith) s.1.1 c.1.1

  join-step :
      (a.free && b.free) ≡ true → join_loop (suc fuel) h a.addr ≡ join_loop fuel both (head_of bs)
  unfolding join_loop both
  join-step e = rw (c.0, c.1.0, e, no_wrap, a_there, b_there) refl
    where
      a_there : (a.addr == 0) ≡ false
      a_there = ground arith

      b_there : (b.addr == 0) ≡ false
      b_there = ground arith

  skip-step : (a.free && b.free) ≡ false → join_loop (suc fuel) h a.addr ≡ join_loop fuel h b.addr
  unfolding join_loop
  skip-step e = rw (c.0, c.1.0, e, a_there, b_there) refl
    where
      a_there : (a.addr == 0) ≡ false
      a_there = ground arith

      b_there : (b.addr == 0) ≡ false
      b_there = ground arith

  join-Joined :
      {w : Walk Heap}
      → Joined both (b.addr + 24 + b.size) (join bs) w
      → Joined h lo (block a.addr (a.size + (b.size + 24)) a.free ∷ join bs) w
  join-Joined j = record {
    heap = j.heap;
    ends = j.ends;
    chain = (
      j.below a.addr (omega arith) ∙ here ∙ ap (λ (x : ℕ). seg x) (sym (head_of-join bs)),
      j.chain,
    );
    below = λ q l. j.below q (omega arith) ∙ lower q l;
    same_first = j.same_first ∙ same;
  }
    where
      seg : ℕ → Segment
      seg x = record { next = x; size = a.size + (b.size + 24); free = a.free }

      here : both.segments a.addr ≡ seg (head_of bs)
      here = unfold both write in ground arith

      lower : (q : ℕ) → q < lo → both.segments q ≡ h.segments q
      lower q l = unfold both write in ground arith

      same : both.first_segment ≡ h.first_segment
      same = unfold both write in refl

pub join_loop-join :
    (bs : List Block) (fuel lo hi : ℕ) (h : Heap)
    → Chain h bs
    → Spaced lo bs hi
    → 0 < lo
    → hi < 2 ^ 64
    → length bs < fuel
    → Joined h lo (join bs) (join_loop fuel h (head_of bs))
unfolding join
join_loop-join bs zero lo hi h c s pos top len = absurd (omega arith)
join_loop-join [] (suc fuel) lo hi h c s pos top len = record {
  heap = h;
  ends = unfold join_loop in refl;
  chain = tt;
  below = λ q l. refl;
  same_first = refl;
}
join_loop-join (a ∷ []) (suc fuel) lo hi h c s pos top len = record {
  heap = h;
  ends = last;
  chain = c;
  below = λ q l. refl;
  same_first = refl;
}
  where
    a_there : (a.addr == 0) ≡ false
    a_there = ground arith

    last : join_loop (suc fuel) h a.addr ≡ done h
    last = unfold join_loop in rw (c.0, a_there) refl
join_loop-join (a ∷ b ∷ bs) (suc fuel) lo hi h c s pos top len =
    elim (Bool-cases (a.free && b.free)) [
      | inl e ↦
          rw (e, join-step h a b bs lo hi fuel c s pos top e)
            (join-Joined h a b bs lo hi fuel c s pos top (
              join_loop-join bs fuel (b.addr + 24 + b.size) hi
                (both h a b bs lo hi fuel c s pos top) (tail-Chain h a b bs lo hi fuel c s pos top)
                s.1.1 (omega arith) top (omega arith)))
      | inr e ↦
          rw (e, skip-step h a b bs lo hi fuel c s pos top e)
            (stay h a lo (b ∷ bs) (join_loop fuel h b.addr) s.0 c (
              join_loop-join (b ∷ bs) fuel (a.addr + 24 + a.size) hi h c.1 s.1 (omega arith) top
                (omega arith)))
    ]
