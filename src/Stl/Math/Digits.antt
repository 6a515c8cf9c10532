-- ===== src/Stl/Math/Digits.antt =====
-- The decimal digits of Math.cpp.
use electric_os.Base.{
  ℕ, zero, suc, ◌+◌, ◌-◌, ◌*◌, ◌/◌, ◌%◌, ◌^◌, ◌≤◌, ◌<◌, ◌≡◌, ◌≢◌, refl, true, false, arith, ◌==◌,
  u32, Option, some, Bool-cases, inl, inr, ◌∙◌, ap, ==_iff, sym, subst,
}
use electric_os.Base.Bits.{all_below, all_below-at}
use native.Mathlib.Nat.{
  pow-suc, pow-zero, div-div-eq-div-mul, div-add-mod, div-add-mod', div-le_self,
}
use electric_os.Stl.Math.{int_pow, get_digit, digit_amount_loop, get_digit_amount}

regroup : (m p a d r x : ℕ) → (10 * a + d) * p + r ≡ m → a * (p * 10) + x ≡ m → x ≡ r + d * p
regroup m p a d r x h k = omega arith

-- The remainder by `p * 10` is the remainder by `p` and one digit more.
pub split_digit : (p m : ℕ) → m % (p * 10) ≡ m % p + (m / p) % 10 * p
split_digit p m =
    regroup m p (m / p / 10) ((m / p) % 10) (m % p) (m % (p * 10))
      (ap (λ (t : ℕ). t * p + m % p) (div-add-mod (m / p) 10) ∙ div-add-mod' m p)
      (ap (λ (t : ℕ). t * (p * 10) + m % (p * 10)) (div-div-eq-div-mul m p 10)
        ∙ div-add-mod' m (p * 10))

power_table : all_below 10 (λ e. int_pow 10 e == 10 ^ e) ≡ true
unfolding all_below int_pow
power_table = refl

-- `IntPow` gives the powers of ten that a 32-bit word holds.
pub int_pow-pow : (e : ℕ) → e < 10 → int_pow 10 e ≡ 10 ^ e
int_pow-pow e h =
    (==_iff (int_pow 10 e) (10 ^ e)).0
      (all_below-at (λ e. int_pow 10 e == 10 ^ e) 10 power_table e h)

-- For a number of 32 bits and a place below 10, `GetDigit` is the number's decimal digit at that
-- place.
pub get_digit_lem :
    (number digit : ℕ)
    → number < 2 ^ 32
    → digit < 10
    → get_digit number digit ≡ (number / 10 ^ digit) % 10
unfolding get_digit
get_digit_lem number digit small place =
    rw (int_pow-pow digit place) (last (number / 10 ^ digit) quotient)
  where
    last : (z : ℕ) → z < 2 ^ 32 → u32 (z + (2 ^ 32 - u32 (z / 10 * 10))) ≡ z % 10
    last z h = omega arith

    quotient : number / 10 ^ digit < 2 ^ 32
    quotient = omega (arith, div-le_self number (10 ^ digit))

-- What `GetDigitAmount` returns: the least number of places that hold the number.
pub record IsWidth (number k : ℕ) : Type 0 where
  pub enough : number < 10 ^ k
  pub least : (j : ℕ) → j < k → 10 ^ j ≤ number

IsWidth-zero : IsWidth 0 0
IsWidth-zero = record { enough = omega (arith, pow-zero 10); least = λ j h. absurd (omega arith) }

IsWidth-suc : (number k : ℕ) → number ≢ 0 → IsWidth (number / 10) k → IsWidth number (suc k)
IsWidth-suc number k ne w = record { enough = omega (arith, pow-suc 10 k, w.enough); least = least }
  where
    least : (j : ℕ) → j < suc k → 10 ^ j ≤ number
    least zero h = omega (arith, pow-zero 10)
    least (suc j) h = omega (arith, pow-suc 10 j, w.least j (omega arith))

-- the outcome of the loop from `digits` on
abbrev Width : ℕ → ℕ → Option ℕ → Type 0
Width number digits r = (k : ℕ) × (r ≡ some (digits + k)) × IsWidth number k

module _ (fuel number digits : ℕ) where
  loop_ends : (number == 0) ≡ true → digit_amount_loop (suc fuel) number digits ≡ some digits
  unfolding digit_amount_loop
  loop_ends e = rw e refl

  loop_goes_on :
      (number == 0) ≡ false
      → digit_amount_loop (suc fuel) number digits
        ≡ digit_amount_loop fuel (number / 10) (u32 (digits + 1))
  unfolding digit_amount_loop
  loop_goes_on e = rw e refl

  zero-Width :
      (number == 0) ≡ true → Width number digits (digit_amount_loop (suc fuel) number digits)
  zero-Width e = (
    0,
    loop_ends e ∙ ap some (omega arith),
    subst (λ (n : ℕ). IsWidth n 0) (sym ((==_iff number 0).0 e)) IsWidth-zero,
  )

  suc-Width :
      digits + 1 < 2 ^ 32
      → (number == 0) ≡ false
      → Width
          (number / 10)
          (u32 (digits + 1))
          (digit_amount_loop fuel (number / 10) (u32 (digits + 1)))
      → Width number digits (digit_amount_loop (suc fuel) number digits)
  suc-Width room e (k, r, w) = (
    suc k,
    loop_goes_on e ∙ r ∙ ap some (omega arith),
    IsWidth-suc number k (λ z. ground arith) w,
  )

amount_loop :
    (fuel number digits : ℕ)
    → digits + fuel < 2 ^ 32
    → number < 10 ^ fuel
    → Width number digits (digit_amount_loop (suc fuel) number digits)
amount_loop zero number digits room small = zero-Width 0 number digits (ground (arith, pow-zero 10))
amount_loop (suc fuel) number digits room small = elim (Bool-cases (number == 0)) [
  | inl e ↦ zero-Width (suc fuel) number digits e
  | inr e ↦ suc-Width (suc fuel) number digits (omega arith) e (
      amount_loop fuel (number / 10) (u32 (digits + 1)) (omega arith)
        (omega (arith, pow-suc 10 fuel)))
]

-- For a number of 32 bits `GetDigitAmount` ends within its rounds, with the number of decimal
-- places.
pub get_digit_amount-IsWidth :
    (number : ℕ) → number < 2 ^ 32 → (k : ℕ) × (get_digit_amount number ≡ some k) × IsWidth number k
unfolding get_digit_amount
get_digit_amount-IsWidth number small =
    let (k, r, w) = amount_loop 10 number 0 (omega arith) (omega arith) in
    (k, r ∙ ap some (omega arith), w)
