-- ===== src/Base/Bits.antt =====
-- Single bits of a byte, by a table over all bytes and positions.
use Prim.Native.Nat.{ℕ, zero, suc, ◌-◌, ◌/◌, ◌%◌, ◌^◌, ◌<◌, bit_and, bit_or}
use mathlib.Core.Path.{◌≡◌, refl}
use mathlib.Core.Bool.{Bool, true, false, ◌&&◌}
use native.Mathlib.Omega.{arith}
use electric_os.Base.Tests.{ltb, ◌==◌, if◌then◌else◌}

-- Every number less than `bound` passes the test.
unfoldable pub all_below : ℕ → (ℕ → Bool) → Bool
all_below zero test = true
all_below (suc bound) test = all_below bound test && test bound

pub all_below-at :
    (test : ℕ → Bool) (bound : ℕ)
    → all_below bound test ≡ true
    → (i : ℕ) → i < bound
    → test i ≡ true
unfolding all_below
all_below-at test zero holds i small = absurd (omega arith)
all_below-at test (suc bound) holds i small =
    let earlier : all_below bound test ≡ true → i < bound → test i ≡ true =
      λ rest less. all_below-at test bound rest i less in
    ground (arith, earlier)

-- `(m >> k) & 1`
abbrev pub bit_at : ℕ → ℕ → Bool
bit_at m k = (m / 2 ^ k) % 2 == 1

-- `m | 1 << k`
abbrev pub set_bit : ℕ → ℕ → ℕ
set_bit m k = bit_or m (2 ^ k)

-- `m & ~(1 << k)` on a byte
abbrev pub clear_bit : ℕ → ℕ → ℕ
clear_bit m k = bit_and m (255 - 2 ^ k)

abbrev same : Bool → Bool → Bool
same true b = b
same false true = false
same false false = true

same_sound : (a b : Bool) → same a b ≡ true → a ≡ b
same_sound a b h = ground arith

abbrev set_ok : ℕ → ℕ → ℕ → Bool
set_ok m k j = same (bit_at (set_bit m k) j) (if j == k then true else bit_at m j)

abbrev clear_ok : ℕ → ℕ → ℕ → Bool
clear_ok m k j = same (bit_at (clear_bit m k) j) (if j == k then false else bit_at m j)

abbrev byte_ok : ℕ → ℕ → Bool
byte_ok m k = ltb (set_bit m k) 256 && ltb (clear_bit m k) 256

set_table : all_below 8 (λ j. all_below 8 (λ k. all_below 256 (λ m. set_ok m k j))) ≡ true
unfolding all_below
set_table = refl

clear_table : all_below 8 (λ j. all_below 8 (λ k. all_below 256 (λ m. clear_ok m k j))) ≡ true
unfolding all_below
clear_table = refl

byte_table : all_below 8 (λ k. all_below 256 (λ m. byte_ok m k)) ≡ true
unfolding all_below
byte_table = refl

module _ (m k j : ℕ) (hm : m < 256) (hk : k < 8) (hj : j < 8) where
  pub bit_at-set_bit : bit_at (set_bit m k) j ≡ (if j == k then true else bit_at m j)
  bit_at-set_bit = same_sound _ _ (
      all_below-at (λ m. set_ok m k j) 256
        (all_below-at (λ k. all_below 256 (λ m. set_ok m k j)) 8 (all_below-at _ 8 set_table j hj) k
          hk)
        m hm)

  pub bit_at-clear_bit : bit_at (clear_bit m k) j ≡ (if j == k then false else bit_at m j)
  bit_at-clear_bit = same_sound _ _ (
      all_below-at (λ m. clear_ok m k j) 256
        (all_below-at (λ k. all_below 256 (λ m. clear_ok m k j)) 8
          (all_below-at _ 8 clear_table j hj) k hk)
        m hm)

module _ (m k : ℕ) (hm : m < 256) (hk : k < 8) where
  both : (set_bit m k < 256) × (clear_bit m k < 256)
  both =
      let h : byte_ok m k ≡ true =
        all_below-at (λ m. byte_ok m k) 256 (all_below-at _ 8 byte_table k hk) m hm in
      ground arith

  pub set_bit-lt : set_bit m k < 256
  set_bit-lt = both.0

  pub clear_bit-lt : clear_bit m k < 256
  clear_bit-lt = both.1
