-- ===== src/Stl/Math.antt =====
-- src/STL/Math/Math.cpp and Math.h. Words of 32 bits wrap; `Sqrt`, over floats, is left out.
pub mod Digits
use electric_os.Base.{
  ℕ, zero, suc, ◌+◌, ◌-◌, ◌*◌, ◌/◌, ◌%◌, ◌^◌, Bool, Option, none, some, ltb, ◌==◌, if◌then◌else◌,
  u32, u64,
}

-- The static seed of `Rand`.
abbrev pub initial_seed : ℕ
initial_seed = 1103515245

-- `Rand`: the new seed and the number.
pub rand : ℕ → ℕ × ℕ
rand seed = let next = u64 (seed * 1103515245 + 12345) in (next, u32 (next / 65536 / 2 ^ 32))

pub int_pow_loop : ℕ → ℕ → ℕ → ℕ
int_pow_loop x y zero = y
int_pow_loop x y (suc left) = int_pow_loop x (u32 (y * x)) left

unfoldable pub int_pow : ℕ → ℕ → ℕ
unfolding int_pow_loop
int_pow x e = int_pow_loop x 1 e

unfoldable pub get_digit : ℕ → ℕ → ℕ
unfolding int_pow
get_digit number digit =
    let y = int_pow 10 digit in
    let z = number / y in let x2 = z / 10 in u32 (z + (2 ^ 32 - u32 (x2 * 10)))

-- The loop of `GetDigitAmount`; `none` means that the fuel ran out.
pub digit_amount_loop : ℕ → ℕ → ℕ → Option ℕ
digit_amount_loop zero number digits = none
digit_amount_loop (suc fuel) number digits =
    let rest = digit_amount_loop fuel (number / 10) (u32 (digits + 1)) in
    if number == 0 then some digits else rest

-- Eleven rounds serve every 32-bit number.
unfoldable pub get_digit_amount : ℕ → Option ℕ
unfolding digit_amount_loop
get_digit_amount number = digit_amount_loop 11 number 0

-- The template `RoundToMultiple`.
pub round_to_multiple : ℕ → ℕ → ℕ
round_to_multiple n multiple = n + n % multiple
