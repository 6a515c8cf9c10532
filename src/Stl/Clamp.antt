-- ===== src/Stl/Clamp.antt =====
-- `Clamp` of src/STL/Math/Math.h, on integers.
use electric_os.Base.{true, false, if◌then◌else◌, ◌≡◌, Bool-cases, inl, inr, arith}
use electric_os.Base.Int.{ℤ, pos, ◌+ℤ◌, ◌-ℤ◌, ◌≤ℤ◌, ltb_ℤ, int_laws}

-- `n + (n < lower) * (lower - n) + (n > upper) * (upper - n)`
pub clamp : ℤ → ℤ → ℤ → ℤ
clamp n lower upper =
    n
    +ℤ (if ltb_ℤ n lower then lower -ℤ n else pos 0)
    +ℤ (if ltb_ℤ upper n then upper -ℤ n else pos 0)

module _ (n lower upper : ℤ) where
  pub clamp-below : ltb_ℤ n lower ≡ true → lower ≤ℤ upper → clamp n lower upper ≡ lower
  unfolding clamp
  clamp-below h order = let k : ltb_ℤ upper n ≡ false = ground arith in rw (h, k) (omega int_laws)

  pub clamp-above : lower ≤ℤ upper → ltb_ℤ upper n ≡ true → clamp n lower upper ≡ upper
  unfolding clamp
  clamp-above order h = let k : ltb_ℤ n lower ≡ false = ground arith in rw (h, k) (omega int_laws)

  pub clamp-inside : ltb_ℤ n lower ≡ false → ltb_ℤ upper n ≡ false → clamp n lower upper ≡ n
  unfolding clamp
  clamp-inside h k = rw (h, k) (omega int_laws)

  -- Between its bounds, and `n` itself if that is.
  pub clamp_bounds :
      lower ≤ℤ upper → (lower ≤ℤ clamp n lower upper) × (clamp n lower upper ≤ℤ upper)
  clamp_bounds order = elim (Bool-cases (ltb_ℤ n lower)) [
    | inl h ↦ rw (clamp-below h order) (omega arith)
    | inr h ↦ elim (Bool-cases (ltb_ℤ upper n)) [
      | inl k ↦ rw (clamp-above order k) (omega arith)
      | inr k ↦ rw (clamp-inside h k) (ground arith)
    ]
  ]
