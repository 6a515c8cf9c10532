-- ===== src/Stl/Memory/Copy.antt =====
-- One move, in the middle of a copy that goes upwards.
use electric_os.Base.{
  ℕ, ◌+◌, ◌-◌, ◌≤◌, ◌<◌, ◌&&◌, ltb, leb, if◌then◌else◌, ◌≡◌, ◌⊎◌, inl, inr, refl, arith, ap,
  fun_ext, ◌∙◌,
}
use electric_os.Stl.Memory.{move, move_block}

-- The destination is not above the source, or is apart from it.
abbrev pub IsSafe : ℕ → ℕ → ℕ → Type 0
IsSafe source dest count = (dest ≤ source) ⊎ (source + count ≤ dest)

-- What copying the first bytes makes of the memory `m`.
pub copied : (ℕ → ℕ) → ℕ → ℕ → ℕ → ℕ → ℕ
copied m source dest count a =
    if leb dest a && ltb a (dest + count) then m (source + (a - dest)) else m a

pub copied-none : (m : ℕ → ℕ) (source dest : ℕ) → m ≡ copied m source dest 0
unfolding copied
copied-none m source dest = fun_ext at
  where
    at : (a : ℕ) → m a ≡ copied m source dest 0 a
    at a = ground arith

pub move-copied :
    (m : ℕ → ℕ) (source dest count done width : ℕ)
    → IsSafe source dest count
    → done + width ≤ count
    → move width (copied m source dest done) (source + done) (dest + done)
      ≡ copied m source dest (done + width)
unfolding move copied
move-copied m source dest count done width safe fits = fun_ext at
  where
    inside :
        (a : ℕ)
        → dest + done ≤ a
        → a < dest + done + width
        → copied m source dest done (source + done + (a - (dest + done))) ≡ m (source + (a - dest))
    inside a low high =
        let place : source + done + (a - (dest + done)) ≡ source + (a - dest) = omega arith in
        rw (place) (
          apart (source + (a - dest))
            (elim safe [ inl under ↦ inl (omega arith) | inr over ↦ inr (omega arith) ]))
      where
        apart : (b : ℕ) → (dest + done ≤ b) ⊎ (b < dest) → copied m source dest done b ≡ m b
        apart b h = ground arith

    at :
        (a : ℕ)
        → move width (copied m source dest done) (source + done) (dest + done) a
          ≡ copied m source dest (done + width) a
    at a = ground (arith, inside a)

pub move_block-copied :
    (m : ℕ → ℕ) (source dest count done : ℕ)
    → IsSafe source dest count
    → done + 64 ≤ count
    → move_block (copied m source dest done) (source + done) (dest + done)
      ≡ copied m source dest (done + 64)
unfolding move_block
move_block-copied m source dest count done safe fits = word 56 64 refl (omega arith) _ (
    word 48 56 refl (omega arith) _ (
      word 40 48 refl (omega arith) _ (
        word 32 40 refl (omega arith) _ (
          word 24 32 refl (omega arith) _ (
            word 16 24 refl (omega arith) _ (
              word 8 16 refl (omega arith) _
                (move-copied m source dest count done 8 safe (omega arith))))))))
  where
    word :
        (k j : ℕ)
        → j ≡ k + 8
        → j ≤ 64
        → (n : ℕ → ℕ) → n ≡ copied m source dest (done + k)
        → move 8 n (source + done + k) (dest + done + k) ≡ copied m source dest (done + j)
    word k j e le n is =
        let from : source + done + k ≡ source + (done + k) = omega arith in
        let to : dest + done + k ≡ dest + (done + k) = omega arith in
        let next : done + k + 8 ≡ done + j = omega arith in
        (λ i. move 8 (is i) (from i) (to i))
        ∙ move-copied m source dest count (done + k) 8 safe (omega arith)
        ∙ ap (copied m source dest) next
