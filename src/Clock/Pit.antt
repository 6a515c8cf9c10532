-- ===== src/Clock/Pit.antt =====
-- src/PIT/PIT.cpp: the timer's divisor and the count of its ticks. The bytes that go to port 0x40
-- are part of the result; `Sleep` waits for the ticks in floating point and is left out.
use electric_os.Base.{
  ℕ, ◌+◌, ◌*◌, ◌/◌, ◌%◌, ◌^◌, ◌≤◌, ◌<◌, List, [], ◌∷◌, ◌==◌, if◌then◌else◌, Option, none, some, ◌≡◌,
  refl, arith, u64, false,
}
use native.Mathlib.Nat.{le-div_iff_mul-le, lt-mul-div-succ, div-lt_iff_lt-mul, mul-div-le}

-- PIT_FREQUENCY
abbrev pub pit_frequency : ℕ
pit_frequency = 1193182

-- The globals.
pub record Pit : Type 0 where
  pub ticks : ℕ
  pub divisor : ℕ

-- `GetFrequency`; `none` is the processor's division error.
pub get_frequency : Pit → Option ℕ
get_frequency p = if p.divisor == 0 then none else some (pit_frequency / p.divisor)

-- `SetDivisor`, with the bytes it writes.
pub set_divisor : ℕ → Pit × List ℕ
set_divisor new = (record { ticks = 0; divisor = new }, new % 256 ∷ (new / 256) % 256 ∷ [])

-- `SetFrequency`: the parameter of `SetDivisor` is a `uint16_t`.
pub set_frequency : ℕ → Option (Pit × List ℕ)
set_frequency f = if f == 0 then none else some (set_divisor ((pit_frequency / f) % 2 ^ 16))

-- `Tick`
pub tick : Pit → Pit
tick p = record p { ticks = u64 (p.ticks + 1) }

-- What `SetFrequency` leaves: no ticks, a frequency that is at least the one asked for and that the
-- next larger divisor would not reach, and the divisor's two bytes on the port, the low one first.
unfoldable pub Programmed : ℕ → Option (Pit × List ℕ) → Type 0
Programmed f none = ⊥
Programmed f (some (p, [])) = ⊥
Programmed f (some (p, lo ∷ [])) = ⊥
Programmed f (some (p, lo ∷ hi ∷ more)) =
    (p.ticks ≡ 0)
    × (lo + 256 * hi ≡ p.divisor)
    × ((g : ℕ) × (get_frequency p ≡ some g) × (f ≤ g))
    × (pit_frequency < f * (p.divisor + 1))

-- A divisor that is not 0 and fits in 16 bits is what `Programmed` asks for.
programmed :
    (f d : ℕ)
    → 1 ≤ d
    → d < 2 ^ 16
    → f * d ≤ pit_frequency
    → pit_frequency < f * (d + 1)
    → Programmed f (some (set_divisor d))
unfolding set_divisor get_frequency Programmed
programmed f d some_d fits low high =
    let some_frequency : (d == 0) ≡ false = ground arith in
    (
      refl,
      omega arith,
      (pit_frequency / d, rw (some_frequency) refl, (le-div_iff_mul-le (omega arith)).1 low),
      high,
    )

-- For a frequency from 19 to the timer's own, `SetFrequency` resets the ticks and writes the
-- divisor's low and high byte; `GetFrequency` is then at least the one asked for, and the next
-- larger divisor would be too slow.
pub set_frequency-Programmed : (f : ℕ) → 19 ≤ f → f ≤ pit_frequency → Programmed f (set_frequency f)
unfolding set_frequency
set_frequency-Programmed f low high =
    let some_f : (f == 0) ≡ false = ground arith in
    let small : pit_frequency / f < 2 ^ 16 = (div-lt_iff_lt-mul (omega arith)).1 (omega arith) in
    let some_d : 1 ≤ pit_frequency / f = (le-div_iff_mul-le (omega arith)).1 (omega arith) in
    let same : (pit_frequency / f) % 2 ^ 16 ≡ pit_frequency / f = omega arith in
    rw (some_f, same)
      (programmed f (pit_frequency / f) some_d small (mul-div-le pit_frequency f)
        (lt-mul-div-succ pit_frequency (omega arith)))
