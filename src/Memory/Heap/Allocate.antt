-- ===== src/Memory/Heap/Allocate.antt =====
-- `Allocate` of Heap.cpp refines first fit on the list of segments.
mod Cut
use electric_os.Base.{
  ℕ, zero, suc, ◌+◌, ◌-◌, ◌*◌, ◌/◌, ◌%◌, ◌^◌, ◌≤◌, ◌<◌, ◌≡◌, ◌≢◌, refl, Bool, true, false, ◌&&◌,
  ◌||◌, arith, ltb, leb, ◌==◌, if◌then◌else◌, u64, sub64, Bool-cases, inl, inr, ◌⊎◌, List, [], ◌∷◌,
  ◌++◌, length, ◌∙◌, ap, Option, none, some, sym, subst,
}
use electric_os.Memory.Heap.{
  Segment, Heap, Walk, done, write, split, set_free, get_start, search_fit, round_size, allocate,
}
use electric_os.Memory.Heap.Chain.{
  Block, block, Chain, Spaced, Spaced-le, Spaced-lower, Holds, head_of, Chain-write,
}
use electric_os.Memory.Heap.FirstFit.{
  carve, behind, first_fit, HasRoom, Becomes, Answers, fits, fails, Owns, InUse, IsSound,
  first_fit-IsSound,
}
use Cut.{keep, whole-step, split-step}

behind-Answers :
    (h : Heap) (b b' : Block) (bs : List Block) (hi : ℕ) {o : Option (List Block × ℕ)}
    {w : Walk (Option (Heap × ℕ))}
    → Chain h (b ∷ b' ∷ bs)
    → Spaced b.addr (b ∷ b' ∷ bs) hi
    → hi < 2 ^ 64
    → Answers h b'.addr hi o w
    → Answers h b.addr hi (behind b o) w
behind-Answers h b b' bs hi c s top fails = fails
behind-Answers h b b' bs hi c s top (fits {bs = r} {p} {h'} becomes sp) =
    fits (keep h b (b' ∷ bs) hi 0 c s top r h' (omega arith) becomes (omega arith))
      (omega arith, Spaced-lower b'.addr (b.addr + 24 + b.size) hi r (omega arith) sp)

-- neither test holds: the search goes on behind `b`
module _ (h : Heap) (b : Block) (n : ℕ) (e : (b.free && (b.size == n)) ≡ false)
    (e2 : (b.free && ltb n b.size) ≡ false) where
  pass-last :
      (fuel hi : ℕ)
      → Chain h (b ∷ [])
      → Answers h b.addr hi (first_fit n (b ∷ [])) (search_fit (suc fuel) h b.addr n)
  pass-last fuel hi c = unfold first_fit search_fit in rw (c.0, e, e2) fails

  pass-on :
      (fuel : ℕ) (b' : Block) (bs : List Block)
      → Chain h (b ∷ b' ∷ bs)
      → 0 < b'.addr
      → search_fit (suc fuel) h b.addr n ≡ search_fit fuel h b'.addr n
  pass-on fuel b' bs c pos = unfold search_fit in rw (c.0, e, e2) (ground arith)

  first_fit-on : (bs : List Block) → first_fit n (b ∷ bs) ≡ behind b (first_fit n bs)
  first_fit-on bs = unfold first_fit in rw (e, e2) refl

search_fit-first_fit :
    (bs : List Block) (fuel : ℕ) (h : Heap) (b : Block) (hi n : ℕ)
    → Chain h (b ∷ bs)
    → Spaced b.addr (b ∷ bs) hi
    → 0 < b.addr
    → hi < 2 ^ 64
    → 64 ≤ n
    → HasRoom n (b ∷ bs)
    → length bs < fuel
    → Answers h b.addr hi (first_fit n (b ∷ bs)) (search_fit fuel h b.addr n)
search_fit-first_fit bs zero h b hi n c s pos top big room len = absurd (omega arith)
search_fit-first_fit [] (suc fuel) h b hi n c s pos top big room len =
    elim (Bool-cases (b.free && (b.size == n))) [
      | inl e ↦ whole-step h b [] hi n c s top fuel e
      | inr e ↦ elim (Bool-cases (b.free && ltb n b.size)) [
        | inl e2 ↦ split-step h b [] hi n c s top fuel big (ground arith) e e2
        | inr e2 ↦ pass-last h b n e e2 fuel hi c
      ]
    ]
search_fit-first_fit (b' ∷ bs) (suc fuel) h b hi n c s pos top big room len =
    elim (Bool-cases (b.free && (b.size == n))) [
      | inl e ↦ whole-step h b (b' ∷ bs) hi n c s top fuel e
      | inr e ↦ elim (Bool-cases (b.free && ltb n b.size)) [
        | inl e2 ↦ split-step h b (b' ∷ bs) hi n c s top fuel big (ground arith) e e2
        | inr e2 ↦
            rw (pass-on h b n e e2 fuel b' bs c (omega arith), first_fit-on h b n e e2 (b' ∷ bs))
              (behind-Answers h b b' bs hi c s top (
                search_fit-first_fit bs fuel h b' hi n c.1 (omega arith, s.1.1) (omega arith) top
                  big room.1 (omega arith)))
      ]
    ]

-- What a caller of `Allocate` gets for `size` bytes at `p`.
pub record Allocated (h : Heap) (b : Block) (bs : List Block) (hi size : ℕ) (h' : Heap) (p : ℕ)
    (bs' : List Block) : Type 0 where
  pub chain : Chain h' bs'
  pub head : head_of bs' ≡ b.addr
  pub same_first : h'.first_segment ≡ h.first_segment
  pub spaced : Spaced b.addr bs' hi
  pub owns : Owns p size bs' hi
  pub kept : (x : Block) → InUse x (b ∷ bs) → InUse x bs'

Owns-less : (bs : List Block) (p n m hi : ℕ) → m ≤ n → Owns p n bs hi → Owns p m bs hi
Owns-less [] p n m hi le o = o
Owns-less (b ∷ bs) p n m hi le (inl o) =
    inl (o.0, o.1, Spaced-lower (p + n) (p + m) hi bs (omega arith) o.2)
Owns-less (b ∷ bs) p n m hi le (inr o) = inr (Owns-less bs p n m hi le o)

module _ (h : Heap) (b : Block) (bs : List Block) (hi fuel size : ℕ) (holds : Holds h b bs hi)
    (len : length bs < fuel) (pos : 0 < size) (small : size + 64 < 2 ^ 64)
    (room : HasRoom (round_size size) (b ∷ bs)) where
  answer :
      Answers h b.addr hi
        (first_fit (round_size size) (b ∷ bs))
        (search_fit fuel h h.first_segment (round_size size))
  answer =
      subst
        (λ (p : ℕ).
          Answers h b.addr hi (first_fit (round_size size) (b ∷ bs))
            (search_fit fuel h p (round_size size)))
        (sym holds.first)
        (search_fit-first_fit bs fuel h b hi (round_size size) holds.chain
          (omega arith, holds.spaced.1) (omega (arith, holds.spaced)) holds.in_memory (omega arith)
          room len)

  from_answer :
      (tries : ℕ) {o : Option (List Block × ℕ)} {w : Walk (Option (Heap × ℕ))}
      → Answers h b.addr hi o w
      → search_fit fuel h h.first_segment (round_size size) ≡ w
      → IsSound (round_size size) (b ∷ bs) hi o
      → (bs' : List Block) (p : ℕ) → o ≡ some (bs', p)
      → (h' : Heap) × (allocate (suc tries) fuel h size ≡ done (h', p))
        × Allocated h b bs hi size h' p bs'
  from_answer tries fails ew g bs' p e = absurd (none_ne e)
    where
      none_ne : ◌≡◌ {A = Option (List Block × ℕ)} none (some (bs', p)) → ⊥
      none_ne x = cc
  from_answer tries (fits {bs = r} {p = q} {h'} becomes sp) ew g bs' p e = (
    h',
    returned,
    record {
      chain = subst (λ (l : List Block). Chain h' l) same_list becomes.chain;
      head = ap head_of (sym same_list) ∙ becomes.head;
      same_first = becomes.same_first;
      spaced = subst (λ (l : List Block). Spaced b.addr l hi) same_list sp;
      owns = Owns-less bs' p (round_size size) size hi (omega arith) (
          subst (λ (l : List Block). Owns p (round_size size) l hi) same_list
            (subst (λ (x : ℕ). Owns x (round_size size) r hi) same_address g.0));
      kept = λ x u. subst (λ (l : List Block). InUse x l) same_list (g.1 x u);
    },
  )
    where
      same_list : r ≡ bs'
      same_list = cc

      same_address : q ≡ p
      same_address = cc

      not_zero : (size == 0) ≡ false
      not_zero = ground arith

      returned : allocate (suc tries) fuel h size ≡ done (h', p)
      returned = unfold allocate in rw (not_zero, ew) (ap (λ (x : ℕ). done (h', x)) same_address)

  -- On a heap that holds a list of segments, none of them free and larger than the rounded
  -- size by less than a header, and for a size above 0 that does not overflow, `Allocate`
  -- returns what first fit on the list finds, where it finds room: the segments are the list
  -- that first fit leaves, in order and without overlap, the returned bytes reach no other
  -- segment, and what was in use still is.
  pub allocate-first_fit :
      (tries : ℕ) (bs' : List Block) (p : ℕ)
      → first_fit (round_size size) (b ∷ bs) ≡ some (bs', p)
      → (h' : Heap) × (allocate (suc tries) fuel h size ≡ done (h', p))
        × Allocated h b bs hi size h' p bs'
  allocate-first_fit tries bs' p e =
      from_answer tries answer refl
        (first_fit-IsSound (b ∷ bs) (round_size size) 1 hi holds.spaced room) bs' p e
