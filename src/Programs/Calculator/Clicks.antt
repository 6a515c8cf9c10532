-- ===== src/Programs/Calculator/Clicks.antt =====
-- A click on a button presses that one.
use electric_os.Base.{◌+◌, ◌*◌, Bool, true, false, List, [], ◌∷◌, ◌≡◌, refl}
use electric_os.Base.Int.{pos}
use electric_os.Stl.Point.{point, contains}
use electric_os.Stl.Gui.{MouseInfo}
use electric_os.Programs.Calculator.{Key, Calculator, column, row, press, press_all, keys, mouse}

abbrev pub over : Key → Bool → MouseInfo
over k held = record {
  position = point (pos (8 + column k * 62 + 25)) (pos (60 + row k * 62 + 25));
  left_held = held;
}

-- The button goes down and up again, with the mouse in its middle.
pub click : Calculator → Key → Calculator
click c k = mouse (mouse c (over k true)) (over k false)

abbrev pub All : (Key → Type 0) → List Key → Type 0
All P [] = Unit
All P (k ∷ ks) = P k × All P ks

-- A click on each of the buttons does what that button does, and leaves all of them up.
pub click-press :
    (c : Calculator)
    → All
        (λ k.
          click (record c { pressed = λ j. false }) k
          ≡ record (press (record c { pressed = λ j. false }) k) { pressed = λ j. false })
        keys
unfolding click mouse press_all contains
click-press c = (
  refl,
  (
    refl,
    (
      refl,
      (
        refl,
        (
          refl,
          (
            refl,
            (refl, (refl, (refl, (refl, (refl, (refl, (refl, (refl, (refl, (refl, tt)))))))))),
          ),
        ),
      ),
    ),
  ),
)
