-- ===== src/Memory/Heap/Allocate/Cut.antt =====
-- The two ways in which the search of `Allocate` takes a segment.
use electric_os.Base.{
  ℕ, suc, ◌+◌, ◌-◌, ◌^◌, ◌≤◌, ◌<◌, ◌≡◌, refl, true, false, ◌&&◌, ◌||◌, arith, ltb, ◌==◌, u64, sub64,
  Bool-cases, inl, inr, List, ◌∷◌, length, ◌∙◌, ap, sym,
}
use electric_os.Memory.Heap.{Segment, Heap, write, split, set_free, get_start, search_fit}
use electric_os.Memory.Heap.Chain.{
  Block, block, Chain, Spaced, Spaced-le, Spaced-lower, head_of, Chain-write,
}
use electric_os.Memory.Heap.FirstFit.{carve, first_fit, Becomes, Answers, fits}

module _ (h : Heap) (b : Block) (bs : List Block) (hi n : ℕ) (c : Chain h (b ∷ bs))
    (s : Spaced b.addr (b ∷ bs) hi) (top : hi < 2 ^ 64) where
  pub take-whole : Becomes h b.addr (block b.addr b.size false ∷ bs) (set_free h b.addr false)
  unfolding set_free write
  take-whole = record {
    chain = (
      rw c.0 (ground arith),
      Chain-write h b.addr _ (b.addr + 24 + b.size) hi bs (omega arith) s.1 c.1,
    );
    head = refl;
    below = λ q lt. ground arith;
    same_first = refl;
    same_last = refl;
  }

  no_wrap : n + 24 ≤ b.size → sub64 (sub64 b.size n) 24 ≡ b.size - n - 24
  no_wrap room = omega (arith, Spaced-le (b.addr + 24 + b.size) hi bs s.1)

  start : n + 24 ≤ b.size → u64 (u64 (b.addr + 24) + n) ≡ b.addr + 24 + n
  start room = omega (arith, Spaced-le (b.addr + 24 + b.size) hi bs s.1)

  less_header : 64 ≤ n → n + 24 ≤ b.size → sub64 n 24 ≡ n - 24
  less_header big room = omega (arith, Spaced-le (b.addr + 24 + b.size) hi bs s.1)

  apart : (b.addr == b.addr + 24 + n) ≡ false
  apart = ground arith

  pub take-split :
      64 ≤ n
      → n + 24 ≤ b.size
      → Becomes h b.addr (carve n b bs) (set_free (split h b.addr n) b.addr false)
  take-split big room = elim (Bool-cases (ltb b.size 64 || ltb (b.size - n - 24) 4096)) [
    | inl small ↦ rw (carve-small small, split-small small) take-whole
    | inr large ↦ rw (carve-large large, split-large large) cut
  ]
    where
      carve-small :
          (ltb b.size 64 || ltb (b.size - n - 24) 4096) ≡ true
          → carve n b bs ≡ block b.addr b.size false ∷ bs
      carve-small e = unfold carve in rw e refl

      carve-large :
          (ltb b.size 64 || ltb (b.size - n - 24) 4096) ≡ false
          → carve n b bs
            ≡ block b.addr (n - 24) false ∷ block (b.addr + 24 + n) (b.size - n - 24) true ∷ bs
      carve-large e = unfold carve in rw e refl

      split-small : (ltb b.size 64 || ltb (b.size - n - 24) 4096) ≡ true → split h b.addr n ≡ h
      split-small e = unfold split in rw (c.0, no_wrap room, e) refl

      h1 : Heap
      h1 =
          write h (b.addr + 24 + n)
            (record { next = head_of bs; size = b.size - n - 24; free = true })

      h2 : Heap
      h2 = write h1 b.addr (record { next = b.addr + 24 + n; size = n - 24; free = b.free })

      split-large : (ltb b.size 64 || ltb (b.size - n - 24) 4096) ≡ false → split h b.addr n ≡ h2
      split-large e =
          unfold split in rw (c.0, no_wrap room, e, start room, apart, less_header big room) refl

      end : b.addr + 24 + b.size ≤ hi
      end = Spaced-le (b.addr + 24 + b.size) hi bs s.1

      rest1 : Chain h1 bs
      rest1 = Chain-write h (b.addr + 24 + n) _ (b.addr + 24 + b.size) hi bs (omega arith) s.1 c.1

      rest2 : Chain h2 bs
      rest2 = Chain-write h1 b.addr _ (b.addr + 24 + b.size) hi bs (omega arith) s.1 rest1

      cut :
          Becomes h b.addr
            (block b.addr (n - 24) false ∷ block (b.addr + 24 + n) (b.size - n - 24) true ∷ bs)
            (set_free h2 b.addr false)
      cut =
          unfold set_free in
          record {
            chain = (
              unfold write in ground arith,
              (
                unfold write in ground arith,
                Chain-write h2 b.addr _ (b.addr + 24 + b.size) hi bs (omega arith) s.1 rest2,
              ),
            );
            head = refl;
            below = λ q lt. unfold write in ground arith;
            same_first = unfold write in refl;
            same_last = unfold write in refl;
          }

  pub carve-Spaced : n + 24 ≤ b.size → 24 ≤ n → Spaced b.addr (carve n b bs) hi
  carve-Spaced room big = elim (Bool-cases (ltb b.size 64 || ltb (b.size - n - 24) 4096)) [
    | inl small ↦ unfold carve in rw small s
    | inr large ↦
        unfold carve in
        rw large (
          omega arith,
          (omega arith, Spaced-lower (b.addr + 24 + b.size) _ hi bs (omega arith) s.1),
        )
  ]

  -- what is behind `b` after the search has gone on
  pub keep :
      (bs' : List Block) (h' : Heap)
      → 0 < length bs
      → Becomes h (head_of bs) bs' h'
      → b.addr < head_of bs
      → Becomes h b.addr (b ∷ bs') h'
  keep bs' h' some_left r lt = record {
    chain = (r.below b.addr lt ∙ c.0 ∙ ap (λ (x : ℕ). seg x) (sym r.head), r.chain);
    head = refl;
    below = λ q l. r.below q (omega arith);
    same_first = r.same_first;
    same_last = r.same_last;
  }
    where
      seg : ℕ → Segment
      seg x = record { next = x; size = b.size; free = b.free }

  pub start_of : get_start b.addr ≡ b.addr + 24
  start_of = omega (arith, Spaced-le (b.addr + 24 + b.size) hi bs s.1)

  pub whole-step :
      (fuel : ℕ)
      → (b.free && (b.size == n)) ≡ true
      → Answers h b.addr hi (first_fit n (b ∷ bs)) (search_fit (suc fuel) h b.addr n)
  whole-step fuel e =
      unfold first_fit search_fit in rw (c.0, e, start_of) (fits take-whole (omega arith, s.1))

  pub split-step :
      (fuel : ℕ)
      → 64 ≤ n
      → n + 24 ≤ b.size
      → (b.free && (b.size == n)) ≡ false
      → (b.free && ltb n b.size) ≡ true
      → Answers h b.addr hi (first_fit n (b ∷ bs)) (search_fit (suc fuel) h b.addr n)
  split-step fuel big room e e2 =
      unfold first_fit search_fit in
      rw (c.0, e, e2, start_of) (fits (take-split big room) (carve-Spaced room (omega arith)))
