-- ===== src/Clock/Rtc.antt =====
-- src/RTC/RTC.cpp: the time read from the chip. What a register holds is a parameter; the loop that
-- waits for the chip to be ready is left out.
use electric_os.Base.{
  ℕ, ◌+◌, ◌-◌, ◌*◌, ◌/◌, ◌%◌, ◌≤◌, ◌<◌, Bool, true, false, ◌==◌, ltb, if◌then◌else◌, ◌≡◌, ==_iff,
  ap, subst, ◌∙◌, refl, arith, bit_and, bit_or, ◌⊎◌, inl, inr,
}
use electric_os.Base.Bits.{bit_at, all_below, all_below-at}

-- The globals.
pub record Time : Type 0 where
  pub second : ℕ
  pub minute : ℕ
  pub hour : ℕ
  pub day : ℕ
  pub month : ℕ
  pub year : ℕ

-- `(x & 0x0F) + ((x / 16) * 10)`
abbrev pub from_bcd : ℕ → ℕ
from_bcd x = (bit_and x 0x0F + x / 16 * 10) % 256

-- The hour, whose top bit says that it is after noon.
abbrev pub hour_from_bcd : ℕ → ℕ
hour_from_bcd x = bit_or (bit_and x 0x0F + bit_and x 0x70 / 16 * 10) (bit_and x 0x80) % 256

-- `Update`, where the chip's registers hold `registers`.
pub update : (ℕ → ℕ) → Time
update registers =
    if bit_at (registers 0x0B) 2
    then record {
      second = registers 0x00;
      minute = registers 0x02;
      hour = registers 0x04;
      day = registers 0x07;
      month = registers 0x08;
      year = registers 0x09;
    }
    else record {
      second = from_bcd (registers 0x00);
      minute = from_bcd (registers 0x02);
      hour = hour_from_bcd (registers 0x04);
      day = from_bcd (registers 0x07);
      month = from_bcd (registers 0x08);
      year = from_bcd (registers 0x09);
    }

-- How the chip writes a number below 100, and an hour: in binary, or with a digit in each half.
abbrev pub to_bcd : Bool → ℕ → ℕ
to_bcd true n = n
to_bcd false n = n / 10 * 16 + n % 10

abbrev pub hour_to_bcd : Bool → ℕ → ℕ
hour_to_bcd binary h = if ltb h 128 then to_bcd binary h else 128 + to_bcd binary (h - 128)

-- The registers hold a time, in the form that register B's bit 2 names.
pub record Holds (registers : ℕ → ℕ) (t : Time) : Type 0 where
  pub second : registers 0x00 ≡ to_bcd (bit_at (registers 0x0B) 2) t.second
  pub minute : registers 0x02 ≡ to_bcd (bit_at (registers 0x0B) 2) t.minute
  pub hour : registers 0x04 ≡ hour_to_bcd (bit_at (registers 0x0B) 2) t.hour
  pub day : registers 0x07 ≡ to_bcd (bit_at (registers 0x0B) 2) t.day
  pub month : registers 0x08 ≡ to_bcd (bit_at (registers 0x0B) 2) t.month
  pub year : registers 0x09 ≡ to_bcd (bit_at (registers 0x0B) 2) t.year

-- The numbers have two digits, and the hour has the top bit besides.
pub record IsTime (t : Time) : Type 0 where
  pub second : t.second < 60
  pub minute : t.minute < 60
  pub hour : (t.hour < 24) ⊎ ((128 ≤ t.hour) × (t.hour < 152))
  pub day : t.day < 32
  pub month : t.month < 13
  pub year : t.year < 100

from_bcd_table : all_below 100 (λ n. from_bcd (to_bcd false n) == n) ≡ true
unfolding all_below
from_bcd_table = refl

hour_ok : ℕ → Bool
hour_ok h = hour_from_bcd (hour_to_bcd false h) == h

morning_table : all_below 24 hour_ok ≡ true
unfolding all_below hour_ok
morning_table = refl

afternoon_table : all_below 24 (λ h. hour_ok (128 + h)) ≡ true
unfolding all_below hour_ok
afternoon_table = refl

pub from_bcd-to_bcd : (n : ℕ) → n < 100 → from_bcd (to_bcd false n) ≡ n
from_bcd-to_bcd n h =
    let row : (from_bcd (to_bcd false n) == n) ≡ true =
      all_below-at (λ n. from_bcd (to_bcd false n) == n) 100 from_bcd_table n h in
    (==_iff (from_bcd (to_bcd false n)) n).0 row

hour_same : (h : ℕ) → hour_to_bcd true h ≡ h
hour_same h = ground arith

hour_from_bcd-hour_to_bcd :
    (h : ℕ) → (h < 24) ⊎ ((128 ≤ h) × (h < 152)) → hour_from_bcd (hour_to_bcd false h) ≡ h
unfolding hour_ok
hour_from_bcd-hour_to_bcd h (inl small) =
    (==_iff (hour_from_bcd (hour_to_bcd false h)) h).0
      (all_below-at hour_ok 24 morning_table h small)
hour_from_bcd-hour_to_bcd h (inr (low, high)) =
    let row = all_below-at (λ h. hour_ok (128 + h)) 24 afternoon_table (h - 128) (omega arith) in
    let back : 128 + (h - 128) ≡ h = omega arith in
    (==_iff (hour_from_bcd (hour_to_bcd false h)) h).0 (subst (λ k. hour_ok k ≡ true) back row)

-- Where the registers hold a time, in binary or with a decimal digit in each half of a byte as
-- register B says, the hour with its top bit, `Update` reads that time.
pub update-Holds :
    (registers : ℕ → ℕ) (t : Time) → IsTime t → Holds registers t → update registers ≡ t
unfolding update
update-Holds registers t is holds =
    by_mode (bit_at (registers 0x0B) 2) holds.second holds.minute holds.hour holds.day holds.month
      holds.year
  where
    by_mode :
        (b : Bool)
        → registers 0x00 ≡ to_bcd b t.second
        → registers 0x02 ≡ to_bcd b t.minute
        → registers 0x04 ≡ hour_to_bcd b t.hour
        → registers 0x07 ≡ to_bcd b t.day
        → registers 0x08 ≡ to_bcd b t.month
        → registers 0x09 ≡ to_bcd b t.year
        → (if b
            then record {
              second = registers 0x00;
              minute = registers 0x02;
              hour = registers 0x04;
              day = registers 0x07;
              month = registers 0x08;
              year = registers 0x09;
            }
            else record {
              second = from_bcd (registers 0x00);
              minute = from_bcd (registers 0x02);
              hour = hour_from_bcd (registers 0x04);
              day = from_bcd (registers 0x07);
              month = from_bcd (registers 0x08);
              year = from_bcd (registers 0x09);
            })
          ≡ t
    by_mode true s m h d o y = λ i. record {
      second = s i;
      minute = m i;
      hour = (h ∙ hour_same t.hour) i;
      day = d i;
      month = o i;
      year = y i;
    }
    by_mode false s m h d o y = λ i. record {
      second = (ap from_bcd s ∙ from_bcd-to_bcd t.second (omega (arith, is.second))) i;
      minute = (ap from_bcd m ∙ from_bcd-to_bcd t.minute (omega (arith, is.minute))) i;
      hour = (ap hour_from_bcd h ∙ hour_from_bcd-hour_to_bcd t.hour is.hour) i;
      day = (ap from_bcd d ∙ from_bcd-to_bcd t.day (omega (arith, is.day))) i;
      month = (ap from_bcd o ∙ from_bcd-to_bcd t.month (omega (arith, is.month))) i;
      year = (ap from_bcd y ∙ from_bcd-to_bcd t.year (omega (arith, is.year))) i;
    }
