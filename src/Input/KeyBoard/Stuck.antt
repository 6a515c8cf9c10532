-- ===== src/Input/KeyBoard/Stuck.antt =====
-- A key that is released under another shift state than it was pressed under.
use electric_os.Base.{ℕ, ◌+◌, ◌<◌, true, false, ◌≡◌, ◌≢◌, arith, ap, ◌∙◌}
use electric_os.Input.KeyBoard.{KeyBoard, left_shift, key_of, handle_key, handle_scan_code, is_held}
use electric_os.Input.KeyBoard.Keys.{
  IsOrdinary, make_or_break, handle_key-ordinary, key_of-ordinary,
}

-- the state after shift has gone down
abbrev shifted : KeyBoard → KeyBoard
shifted k = handle_key k left_shift false

-- For a code below 128 to which the two tables give different keys, neither of them caps lock or
-- shift, where 0x2A is the shift key: after the code, shift, and the code plus 128, the first
-- key is still held.
pub release-shifted :
    (k : KeyBoard) (code : ℕ)
    → code < 128
    → key_of k 0x2A ≡ left_shift
    → IsOrdinary (key_of k code)
    → IsOrdinary (key_of (handle_scan_code (handle_scan_code k code) 0x2A) code)
    → key_of (handle_scan_code (handle_scan_code k code) 0x2A) code ≢ key_of k code
    → is_held
        (handle_scan_code (handle_scan_code (handle_scan_code k code) 0x2A) (code + 128))
        (key_of k code)
      ≡ true
release-shifted k code small shift first second differ =
    rw (make_or_break pressed code true small) (kept ∙ down)
  where
    pressed : KeyBoard
    pressed = handle_scan_code (handle_scan_code k code) 0x2A

    kept :
        is_held (handle_key pressed (key_of pressed code) true) (key_of k code)
        ≡ is_held pressed (key_of k code)
    kept =
        unfold is_held in
        rw (handle_key-ordinary pressed (key_of pressed code) true second) (ground arith)

    steps : pressed ≡ handle_key (handle_key k (key_of k code) false) left_shift false
    steps =
        ap (λ (s : KeyBoard). handle_scan_code s 0x2A) (make_or_break k code false small)
        ∙ make_or_break (handle_key k (key_of k code) false) 0x2A false (omega arith)
        ∙ ap (λ (x : ℕ). handle_key (handle_key k (key_of k code) false) x false)
            (key_of-ordinary k (key_of k code) 0x2A false first ∙ shift)

    down : is_held pressed (key_of k code) ≡ true
    down = ap (λ (s : KeyBoard). is_held s (key_of k code)) steps ∙ held
      where
        held :
            is_held
              (handle_key (handle_key k (key_of k code) false) left_shift false)
              (key_of k code)
            ≡ true
        held =
            unfold is_held in
            rw (handle_key-ordinary k (key_of k code) false first)
              (unfold handle_key in ground arith)
