-- ===== src/Clock.antt =====
-- The two clocks.
pub mod Pit
pub mod Rtc
mod Tests
