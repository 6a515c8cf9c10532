-- ===== src/Input/KeyBoard.antt =====
-- src/Input/KeyBoard.cpp: scan codes, the cache of held keys, and the last key.
pub mod Keys
pub mod Stuck
mod Tests
use electric_os.Base.{
  ℕ, ◌+◌, ◌-◌, ◌*◌, ◌/◌, ◌%◌, Bool, true, false, not, ◌&&◌, ◌||◌, List, [], ◌∷◌, length, get_or,
  ltb, ◌==◌, if◌then◌else◌,
}

abbrev pub enter : ℕ
enter = 0x1C

abbrev pub backspace : ℕ
backspace = 0x0E

abbrev pub control : ℕ
control = 0x1D

abbrev pub left_shift : ℕ
left_shift = 0x2A

abbrev pub arrow_up : ℕ
arrow_up = 0x48

abbrev pub arrow_down : ℕ
arrow_down = 0x50

abbrev pub arrow_left : ℕ
arrow_left = 0x4B

abbrev pub arrow_right : ℕ
arrow_right = 0x4D

abbrev pub page_up : ℕ
page_up = 0x49

abbrev pub page_down : ℕ
page_down = 0x51

abbrev pub caps_lock : ℕ
caps_lock = 0x3A

-- `ScanCodeTable`
pub scan_code_table : List ℕ
scan_code_table =
    0 ∷ 0 ∷ b'1' ∷ b'2' ∷ b'3' ∷ b'4' ∷ b'5' ∷ b'6' ∷ b'7' ∷ b'8' ∷ b'9' ∷ b'0' ∷ b'-' ∷ b'='
    ∷ backspace ∷ 9 ∷ b'q' ∷ b'w' ∷ b'e' ∷ b'r' ∷ b't' ∷ b'y' ∷ b'u' ∷ b'i' ∷ b'o' ∷ b'p' ∷ b'['
    ∷ b']' ∷ enter ∷ control ∷ b'a' ∷ b's' ∷ b'd' ∷ b'f' ∷ b'g' ∷ b'h' ∷ b'j' ∷ b'k' ∷ b'l' ∷ b';'
    ∷ 39 ∷ b'`' ∷ left_shift ∷ 92 ∷ b'z' ∷ b'x' ∷ b'c' ∷ b'v' ∷ b'b' ∷ b'n' ∷ b'm' ∷ b',' ∷ b'.'
    ∷ b'/' ∷ 0 ∷ b'*' ∷ 0 ∷ b' ' ∷ caps_lock ∷ 0 ∷ 0 ∷ 0 ∷ 0 ∷ 0 ∷ 0 ∷ 0 ∷ 0 ∷ 0 ∷ 0 ∷ 0 ∷ 0 ∷ 0
    ∷ arrow_up ∷ page_up ∷ b'-' ∷ arrow_left ∷ 0 ∷ arrow_right ∷ b'+' ∷ 0 ∷ arrow_down ∷ page_down
    ∷ 0 ∷ 0 ∷ 0 ∷ 0 ∷ 0 ∷ 0 ∷ 0 ∷ 0 ∷ []

-- `ShiftedScanCodeTable`
pub shifted_scan_code_table : List ℕ
shifted_scan_code_table =
    0 ∷ 0 ∷ b'!' ∷ 34 ∷ b'#' ∷ b'$' ∷ b'%' ∷ b'&' ∷ b'/' ∷ b'(' ∷ b')' ∷ b'=' ∷ b'-' ∷ b'='
    ∷ backspace ∷ 9 ∷ b'Q' ∷ b'W' ∷ b'E' ∷ b'R' ∷ b'T' ∷ b'Y' ∷ b'U' ∷ b'I' ∷ b'O' ∷ b'P' ∷ b'['
    ∷ b']' ∷ enter ∷ control ∷ b'A' ∷ b'S' ∷ b'D' ∷ b'F' ∷ b'G' ∷ b'H' ∷ b'J' ∷ b'K' ∷ b'L' ∷ b';'
    ∷ 39 ∷ b'`' ∷ left_shift ∷ 92 ∷ b'Z' ∷ b'X' ∷ b'C' ∷ b'V' ∷ b'B' ∷ b'N' ∷ b'M' ∷ b',' ∷ b'.'
    ∷ b'/' ∷ 0 ∷ b'*' ∷ 0 ∷ b' ' ∷ caps_lock ∷ 0 ∷ 0 ∷ 0 ∷ 0 ∷ 0 ∷ 0 ∷ 0 ∷ 0 ∷ 0 ∷ 0 ∷ 0 ∷ 0 ∷ 0
    ∷ arrow_up ∷ page_up ∷ b'-' ∷ arrow_left ∷ 0 ∷ arrow_right ∷ b'+' ∷ 0 ∷ arrow_down ∷ page_down
    ∷ 0 ∷ 0 ∷ 0 ∷ 0 ∷ 0 ∷ 0 ∷ 0 ∷ 0 ∷ []

-- The globals. `KeyCache` has 255 entries, and every key of the tables is below that. `behind` is
-- what memory holds behind the tables, of which the first is for shift: a code beyond them is looked
-- up there.
pub record KeyBoard : Type 0 where
  pub key_cache : ℕ → Bool
  pub current_key : ℕ
  pub caps_locked : Bool
  pub behind : Bool → ℕ → ℕ

abbrev pub set_cache : (ℕ → Bool) → ℕ → Bool → ℕ → Bool
set_cache cache key value k = if k == key then value else cache k

-- The key of a code.
pub key_of : KeyBoard → ℕ → ℕ
unfolding scan_code_table shifted_scan_code_table
key_of k scan_code =
    if k.caps_locked || k.key_cache left_shift
    then get_or shifted_scan_code_table scan_code (k.behind true scan_code % 256)
    else get_or scan_code_table scan_code (k.behind false scan_code % 256)

-- The `switch` of `HandleScanCode` on the key.
pub handle_key : KeyBoard → ℕ → Bool → KeyBoard
handle_key k key is_up =
    if key == caps_lock
    then record k { caps_locked = if is_up then k.caps_locked else not k.caps_locked }
    else if key == left_shift
    then record k { key_cache = set_cache k.key_cache key (not is_up) }
    else record k {
      key_cache = set_cache k.key_cache key (not is_up);
      current_key = if is_up then 0 else key;
    }

-- Bit 7 of a scan code says that the key goes up.
pub handle_scan_code : KeyBoard → ℕ → KeyBoard
handle_scan_code k scan_code = handle_key k (key_of k (scan_code % 128)) (scan_code / 128 % 2 == 1)

pub get_key_press : KeyBoard → KeyBoard × ℕ
get_key_press k = (record k { current_key = 0 }, k.current_key)

pub get_key_held : KeyBoard → ℕ
get_key_held k = k.current_key

pub is_pressed : KeyBoard → ℕ → KeyBoard × Bool
is_pressed k key = (
  record k {
    key_cache = set_cache k.key_cache key false;
    current_key = if k.current_key == key then 0 else k.current_key;
  },
  k.key_cache key,
)

pub is_held : KeyBoard → ℕ → Bool
is_held k key = k.key_cache key
