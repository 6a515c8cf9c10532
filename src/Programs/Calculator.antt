-- ===== src/Programs/Calculator.antt =====
-- src/Programs/Calculator/Calculator.cpp, with `Button::IsPressed` of src/STL/GUI/Button.cpp: the
-- globals and what the mouse does to them. What is drawn is left out; the text is the label's.
pub mod Clicks
pub mod Answers
mod Tests
use electric_os.Base.{
  ℕ, zero, suc, ◌+◌, ◌-◌, ◌*◌, ◌/◌, ◌%◌, Bool, true, false, not, ◌&&◌, List, [], ◌∷◌, ◌++◌, length,
  ltb, ◌==◌, if◌then◌else◌, Option, none, some, u32, u64, sub64,
}
use electric_os.Base.Int.{ℤ, pos, ltb_ℤ}
use electric_os.Stl.Point.{Point, point, contains}
use electric_os.Stl.Cstr.{to_string, to_int}
use electric_os.Stl.Gui.{MouseInfo}

-- The buttons: `NumButtons`, and the six others.
pub data Key : Type 0 where
  digit : ℕ → Key
  equal dot add sub mul div : Key

-- The globals, and whether each button was pressed at the last message.
pub record Calculator : Type 0 where
  pub text : List ℕ
  pub previous_num : ℕ
  pub previous_operator : ℕ
  pub clear_label : Bool
  pub pressed : Key → Bool

-- `INIT`
abbrev pub start : Calculator
start = record {
  text = b'0' ∷ [];
  previous_num = 0;
  previous_operator = 0;
  clear_label = true;
  pressed = λ k. false;
}

-- The column and the row of a button.
abbrev pub column : Key → ℕ
column (digit zero) = 1
column (digit (suc n)) = n % 3
column div = 0
column dot = 2
column _ = 3

abbrev pub row : Key → ℕ
row (digit zero) = 3
row (digit (suc n)) = n / 3
row mul = 0
row sub = 1
row add = 2
row _ = 3

-- `GetButtonPosition`, where RAISED_WIDTH is 4 and a button has 50 by 50 pixels.
abbrev pub get_button_position : ℕ → ℕ → Point
get_button_position x y = point (pos (8 + x * 62)) (pos (60 + y * 62))

-- The new value of `Pressed` in `IsPressed`.
abbrev pub is_over : Key → MouseInfo → Bool
is_over k m =
    m.left_held
    && contains (get_button_position (column k) (row k))
        (point (pos (8 + column k * 62 + 50)) (pos (60 + row k * 62 + 50))) m.position

-- What the label shows of a number: `ToString` always gives a text.
abbrev pub text_of : Option (List ℕ) → List ℕ
text_of none = []
text_of (some s) = s

pub show : ℕ → List ℕ
show n = text_of (to_string n)

abbrev pub div_by_zero : List ℕ
div_by_zero = b'D' ∷ b'I' ∷ b'V' ∷ b' ' ∷ b'B' ∷ b'Y' ∷ b' ' ∷ b'Z' ∷ b'E' ∷ b'R' ∷ b'O' ∷ b'!' ∷ []

-- A division that shows its error in the label.
pub divided : ℕ → ℕ → List ℕ
divided a b = if b == 0 then div_by_zero else show (a / b)

-- A button with a number: the label has room for 13 characters.
pub press_digit : Calculator → ℕ → Calculator
press_digit c n =
    if c.clear_label
    then record c { text = (b'0' + n) ∷ []; clear_label = false }
    else if ltb (length c.text) 13
    then record c { text = c.text ++ ((b'0' + n) ∷ []) }
    else c

-- The four branches of the button `=`.
pub result : Calculator → Calculator
result c =
    if c.previous_operator == b'+'
    then record c { text = show (u64 (c.previous_num + to_int c.text)); previous_num = 0 }
    else if c.previous_operator == b'-'
    then record c { text = show (sub64 c.previous_num (to_int c.text)); previous_num = 0 }
    else if c.previous_operator == b'*'
    then record c { text = show (u64 (c.previous_num * to_int c.text)); previous_num = 0 }
    else if c.previous_operator == b'/'
    then record c { text = divided c.previous_num (to_int c.text); previous_num = 0 }
    else c

-- What a button that is pressed does.
pub press : Calculator → Key → Calculator
press c (digit n) = press_digit c n
press c equal = record (result c) { clear_label = true; previous_operator = 0 }
press c dot = c
press c add =
    let n = u64 (c.previous_num + to_int c.text) in
    record c { text = show n; clear_label = true; previous_operator = b'+'; previous_num = u32 n }
press c sub =
    let n = sub64 c.previous_num (to_int c.text) in
    record c { text = show n; clear_label = true; previous_operator = b'-'; previous_num = u32 n }
press c mul =
    let n = to_int c.text in
    record c {
      text = show (u64 (c.previous_num * n));
      clear_label = true;
      previous_operator = b'*';
      previous_num = u32 n;
    }
press c div =
    let n = to_int c.text in
    record c {
      text = divided c.previous_num n;
      clear_label = true;
      previous_operator = b'/';
      previous_num = u32 n;
    }

-- The buttons in the order of `MOUSE`.
abbrev pub keys : List Key
keys =
    digit 0
    ∷ digit 1
    ∷ digit 2
    ∷ digit 3
    ∷ digit 4
    ∷ digit 5
    ∷ digit 6
    ∷ digit 7
    ∷ digit 8
    ∷ digit 9
    ∷ equal
    ∷ dot
    ∷ add
    ∷ sub
    ∷ mul
    ∷ div
    ∷ []

pub press_all : Calculator → MouseInfo → List Key → Calculator
press_all c m [] = c
press_all c m (k ∷ ks) = press_all (if is_over k m && not (c.pressed k) then press c k else c) m ks

-- `MOUSE`: each button is asked once, so all of them change at the end here.
pub mouse : Calculator → MouseInfo → Calculator
mouse c m = record (press_all c m keys) { pressed = λ k. is_over k m }
