-- ===== src/Memory/Heap/Split.antt =====
-- `Segment::Split` of Heap.cpp where the rest is smaller than a header.
use electric_os.Base.{
  ℕ, ◌+◌, ◌-◌, ◌^◌, ◌≤◌, ◌<◌, ◌≡◌, refl, true, false, ◌||◌, arith, ltb, ◌==◌, u64, sub64,
}
use electric_os.Memory.Heap.{Heap, write, split, get_start}

-- Where a segment has at least 64 bytes and is larger than the wanted size by less than a
-- header, and ends in the 64-bit address space, `Split` links a free segment whose size is the
-- difference wrapped to 64 bits.
split-wraps :
    (h : Heap) (p new_size : ℕ)
    → p + 48 + (h.segments p).size < 2 ^ 64
    → 64 ≤ (h.segments p).size
    → new_size < (h.segments p).size
    → (h.segments p).size < new_size + 24
    → let rest = (split h p new_size).segments (p + 24 + new_size) in
      (((split h p new_size).segments p).next ≡ p + 24 + new_size)
      × (rest.free ≡ true)
      × (rest.size ≡ 2 ^ 64 + (h.segments p).size - (new_size + 24))
split-wraps h p n fits big less close =
    unfold split write in rw (test, start, other, self, self') (refl, refl, rest_size)
  where
    other : ((p + 24 + n) == p) ≡ false
    other = ground arith

    self : ((p + 24 + n) == (p + 24 + n)) ≡ true
    self = ground arith

    self' : (p == p) ≡ true
    self' = ground arith

    rest_size : sub64 (sub64 (h.segments p).size n) 24 ≡ 2 ^ 64 + (h.segments p).size - (n + 24)
    rest_size = omega arith

    test : (ltb (h.segments p).size 64 || ltb (sub64 (sub64 (h.segments p).size n) 24) 4096) ≡ false
    test = ground (arith, rest_size)

    start : u64 (get_start p + n) ≡ p + 24 + n
    start = omega arith
