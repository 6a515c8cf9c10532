-- ===== src/Input/KeyBoard/Tests.antt =====
-- The theorems on the keyboard at the key A (code 0x1E).
use electric_os.Base.{◌+◌, ◌≡◌, ◌≢◌, refl, arith, true, false}
use electric_os.Input.KeyBoard.{KeyBoard, left_shift, key_of, handle_scan_code, handle_key, is_held}
use electric_os.Input.KeyBoard.Keys.{IsOrdinary}
use electric_os.Input.KeyBoard.Stuck.{release-shifted}

-- No key is down.
abbrev idle : KeyBoard
idle = record {
  key_cache = λ k. false;
  current_key = 0;
  caps_locked = false;
  behind = λ shifted i. 0;
}

a-IsOrdinary : IsOrdinary (key_of idle 0x1E)
unfolding key_of
a-IsOrdinary = (omega arith, omega arith)

shift_key : key_of idle 0x2A ≡ left_shift
unfolding key_of
shift_key = refl

a_shifted-IsOrdinary : IsOrdinary (key_of (handle_scan_code (handle_scan_code idle 0x1E) 0x2A) 0x1E)
unfolding key_of handle_scan_code handle_key
a_shifted-IsOrdinary = (omega arith, omega arith)

a_shifted_other :
    key_of (handle_scan_code (handle_scan_code idle 0x1E) 0x2A) 0x1E ≢ key_of idle 0x1E
unfolding key_of handle_scan_code handle_key
a_shifted_other = omega arith

release-shifted_example :
    is_held
      (handle_scan_code (handle_scan_code (handle_scan_code idle 0x1E) 0x2A) (0x1E + 128))
      (key_of idle 0x1E)
    ≡ true
release-shifted_example =
    release-shifted idle 0x1E (omega arith) shift_key a-IsOrdinary a_shifted-IsOrdinary
      a_shifted_other
