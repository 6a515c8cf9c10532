-- ===== src/Clock/Tests.antt =====
-- The clocks as the kernel uses them: 100 ticks a second, and a time in BCD.
use electric_os.Base.{ℕ, ◌+◌, ◌≡◌, refl, arith, inr, ◌==◌, if◌then◌else◌}
use electric_os.Clock.Pit.{set_frequency, Programmed, set_frequency-Programmed}
use electric_os.Clock.Rtc.{Time, update, IsTime, Holds, update-Holds}

set_frequency-Programmed_example : Programmed 100 (set_frequency 100)
set_frequency-Programmed_example = set_frequency-Programmed 100 (omega arith) (omega arith)

abbrev evening : Time
evening = record { second = 59; minute = 48; hour = 128 + 11; day = 31; month = 12; year = 21 }

abbrev chip : ℕ → ℕ
chip r =
    if r == 0x00
    then 0x59
    else if r == 0x02
    then 0x48
    else if r == 0x04
    then 0x91
    else if r == 0x07
    then 0x31
    else if r == 0x08
    then 0x12
    else if r == 0x09
    then 0x21
    else 0x00

evening-IsTime : IsTime evening
evening-IsTime = record {
  second = omega arith;
  minute = omega arith;
  hour = inr (omega arith, omega arith);
  day = omega arith;
  month = omega arith;
  year = omega arith;
}

chip-Holds : Holds chip evening
chip-Holds = record {
  second = refl;
  minute = refl;
  hour = refl;
  day = refl;
  month = refl;
  year = refl;
}

update-Holds_example : update chip ≡ evening
update-Holds_example = update-Holds chip evening evening-IsTime chip-Holds
