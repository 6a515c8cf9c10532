-- ===== src/Stl/Cstr.antt =====
-- src/STL/String/cstr.cpp. A C string is the list of its characters before the closing zero; a
-- read at its length gives that zero.
pub mod RoundTrip
use mathlib.Core.List.{reverse}
use electric_os.Base.{
  ℕ, zero, suc, ◌+◌, ◌-◌, ◌*◌, ◌/◌, ◌%◌, ◌^◌, Bool, Option, none, some, List, [], ◌∷◌, ◌++◌, ltb,
  ◌==◌, ◌||◌, if◌then◌else◌, u32, u64, sub64, length,
}
use electric_os.Stl.Math.{get_digit, get_digit_amount}

-- The digits that the loop of `ToString` writes, from place `i - 1` down.
unfoldable pub write_digits : ℕ → ℕ → List ℕ
write_digits number zero = []
write_digits number (suc i) = (b'0' + get_digit (u32 number) i) ∷ write_digits number i

abbrev pub with_amount : ℕ → Option ℕ → Option (List ℕ)
with_amount number none = none
with_amount number (some zero) = some (b'0' ∷ [])
with_amount number (some (suc n)) = some (write_digits number (suc n))

-- `ToString`; both helpers take a `uint32_t`, and cut the number.
unfoldable pub to_string : ℕ → Option (List ℕ)
to_string number = with_amount number (get_digit_amount (u32 number))

-- The loop of `ToInt`, from the last character to the first: the result and the multiplier.
pub to_int_loop : List ℕ → ℕ → ℕ → ℕ × ℕ
to_int_loop [] result multiplier = (result, multiplier)
to_int_loop (c ∷ cs) result multiplier =
    to_int_loop cs (u64 (result + sub64 c b'0' * multiplier)) (u64 (multiplier * 10))

unfoldable pub to_int : List ℕ → ℕ
unfolding to_int_loop
to_int string = (to_int_loop (reverse string) 0 1).0

-- `NextWord` on the characters behind the first, which it passes over unread: the offset that is
-- added to the pointer.
unfoldable pub next_word_loop : List ℕ → ℕ → ℕ
next_word_loop [] i = i
next_word_loop (c ∷ cs) i =
    let rest = next_word_loop cs (i + 1) in if c == b' ' then i + 2 else rest

unfoldable pub next_word : List ℕ → ℕ
unfolding next_word_loop
next_word cs = next_word_loop cs 0

-- `LineAmount`
unfoldable pub line_amount : List ℕ → ℕ → ℕ
line_amount [] amount = amount
line_amount (c ∷ cs) amount = line_amount cs (if c == 10 then u64 (amount + 1) else amount)

-- The loop of `HashWord` and of `ConstHashWord`, from character `i` on. The shift is the
-- processor's, which takes its count by 64.
unfoldable pub hash_word_loop : List ℕ → ℕ → ℕ → ℕ
hash_word_loop [] i result = result
hash_word_loop (c ∷ cs) i result =
    let rest = hash_word_loop cs (i + 1) (u64 (result + u64 (c % 16 * 2 ^ (4 * i % 64)))) in
    if c == b' ' then result else rest

-- The first character is hashed whatever it is.
unfoldable pub hash_word : ℕ → List ℕ → ℕ
unfolding hash_word_loop
hash_word c cs = hash_word_loop cs 1 (c % 16)
