-- ===== src/Stl/Cstr/RoundTrip.antt =====
-- `ToInt` reads back what `ToString` writes.
use electric_os.Base.{
  ℕ, zero, suc, ◌+◌, ◌*◌, ◌/◌, ◌%◌, ◌^◌, ◌≤◌, ◌<◌, ◌≡◌, refl, true, arith, ltb, u32, u64, sub64,
  some, Bool-cases, inl, inr, ◌∙◌, ap, List, [], ◌∷◌, ◌++◌, sym, leb, ltb→lt,
}
use mathlib.Core.List.{reverse, reverse-append}
use native.Mathlib.Nat.{pow-suc, pow-zero, mod-eq_of_lt, mod-one, mod-lt}
use electric_os.Base.Bits.{all_below, all_below-at}
use electric_os.Stl.Math.{get_digit}
use electric_os.Stl.Math.Digits.{split_digit, get_digit_lem, get_digit_amount-IsWidth, IsWidth}
use electric_os.Stl.Cstr.{write_digits, with_amount, to_string, to_int_loop, to_int}

to_int_loop-snoc :
    (xs : List ℕ) (c r m : ℕ)
    → to_int_loop (xs ++ c ∷ []) r m
      ≡ (let (r', m') = to_int_loop xs r m in (u64 (r' + sub64 c 48 * m'), u64 (m' * 10)))
unfolding to_int_loop
to_int_loop-snoc [] c r m = refl
to_int_loop-snoc (x ∷ xs) c r m = to_int_loop-snoc xs c (u64 (r + sub64 x 48 * m)) (u64 (m * 10))

power_bound : all_below 11 (λ e. leb (10 ^ e) (10 ^ 10)) ≡ true
unfolding all_below
power_bound = refl

pow-le : (e : ℕ) → e < 11 → 10 ^ e ≤ 10 ^ 10
pow-le e h = ground (arith, all_below-at (λ e. leb (10 ^ e) (10 ^ 10)) 11 power_bound e h)

digit_value : (d p : ℕ) → d < 10 → sub64 (48 + d) 48 * p ≡ d * p
digit_value d p h = ap (λ (x : ℕ). x * p) (omega arith)

-- one more digit: the number read so far, and the next power of ten
digit_step :
    (m d p : ℕ)
    → p ≤ 10 ^ 9
    → d ≡ (m / p) % 10
    → 0 < p
    → (u64 (m % p + sub64 (48 + d) 48 * p) ≡ m % (p * 10)) × (u64 (p * 10) ≡ p * 10)
digit_step m d p small e pos = (
  ap u64 (omega (arith, digit_value d p (omega arith), split_digit p m, ap (λ (x : ℕ). x * p) e))
      ∙ mod-eq_of_lt (omega (arith, mod-lt m {m = p * 10} (omega arith))),
  omega arith,
)

pow-pos : (e : ℕ) → 0 < 10 ^ e
pow-pos zero = omega (arith, pow-zero 10)
pow-pos (suc e) = omega (arith, pow-suc 10 e, pow-pos e)

pow-le-nine : (e : ℕ) → e < 10 → 10 ^ e ≤ 10 ^ 9
pow-le-nine e h = omega (arith, pow-suc 10 e, pow-le (suc e) (omega arith))

pair_eq : {a a' b b' : ℕ} → a ≡ a' → b ≡ b' → ◌≡◌ {A = ℕ × ℕ} (a, b) (a', b')
pair_eq e f = λ i. (e i, f i)

read_digits :
    (number i : ℕ)
    → i ≤ 10
    → to_int_loop (reverse (write_digits number i)) 0 1 ≡ (u32 number % 10 ^ i, 10 ^ i)
read_digits number zero h =
    unfold write_digits to_int_loop in
    pair_eq (sym (ap (λ (p : ℕ). u32 number % p) (pow-zero 10) ∙ mod-one (u32 number)))
      (sym (pow-zero 10))
read_digits number (suc i) h = more (read_digits number i (omega arith))
  where
    d : ℕ
    d = get_digit (u32 number) i

    digit : d ≡ (u32 number / 10 ^ i) % 10
    digit = get_digit_lem (u32 number) i (omega arith) (omega arith)

    step :
        (u64 (u32 number % 10 ^ i + sub64 (48 + d) 48 * 10 ^ i) ≡ u32 number % (10 ^ i * 10))
        × (u64 (10 ^ i * 10) ≡ 10 ^ i * 10)
    step = digit_step (u32 number) d (10 ^ i) (pow-le-nine i (omega arith)) digit (pow-pos i)

    more :
        to_int_loop (reverse (write_digits number i)) 0 1 ≡ (u32 number % 10 ^ i, 10 ^ i)
        → to_int_loop (reverse (write_digits number (suc i))) 0 1
          ≡ (u32 number % 10 ^ suc i, 10 ^ suc i)
    more ih =
        unfold write_digits in
        ap (λ (l : List ℕ). to_int_loop l 0 1)
          (reverse-append ((48 + d) ∷ []) (write_digits number i))
        ∙ to_int_loop-snoc (reverse (write_digits number i)) (48 + d) 0 1
        ∙ ap (λ (q : ℕ × ℕ). (u64 (q.0 + sub64 (48 + d) 48 * q.1), u64 (q.1 * 10))) ih
        ∙ rw (pow-suc 10 i) (pair_eq step.0 step.1)

with_amount-digits :
    (number k : ℕ)
    → k ≤ 10
    → IsWidth (u32 number) k
    → (s : List ℕ) × (with_amount number (some k) ≡ some s) × (to_int s ≡ u32 number)
with_amount-digits number zero h w = (48 ∷ [], refl, zero_value)
  where
    none_left : u32 number ≡ 0
    none_left = omega (arith, w.enough, pow-zero 10)

    zero_value : to_int (48 ∷ []) ≡ u32 number
    zero_value = unfold to_int in sym none_left
with_amount-digits number (suc k) h w = (write_digits number (suc k), refl, value)
  where
    value : to_int (write_digits number (suc k)) ≡ u32 number
    value =
        unfold to_int in
        ap (λ (q : ℕ × ℕ). q.0) (read_digits number (suc k) h) ∙ mod-eq_of_lt w.enough

width-le : (number k : ℕ) → number < 2 ^ 32 → IsWidth number k → k ≤ 10
width-le number k small w = elim (Bool-cases (ltb 10 k)) [
  | inl big ↦ absurd (omega (arith, w.least 10 (ltb→lt 10 k big)))
  | inr fits ↦ ground arith
]

-- `ToString` of each number produces a text, and `ToInt` reads that text as the number's low 32
-- bits.
pub to_int-to_string :
    (number : ℕ) → (s : List ℕ) × (to_string number ≡ some s) × (to_int s ≡ u32 number)
to_int-to_string number =
    let (k, r, w) = get_digit_amount-IsWidth (u32 number) (omega arith) in
    let (s, e, v) = with_amount-digits number k (width-le (u32 number) k (omega arith) w) w in
    (s, unfold to_string in ap (with_amount number) r ∙ e, v)
