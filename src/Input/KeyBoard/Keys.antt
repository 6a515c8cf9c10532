-- ===== src/Input/KeyBoard/Keys.antt =====
-- What presses and releases do to the cache.
use electric_os.Base.{
  ℕ, ◌+◌, ◌<◌, Bool, true, false, not, ◌==◌, if◌then◌else◌, ◌≡◌, ◌≢◌, refl, arith, ap, ap₂, ◌∙◌,
}
use electric_os.Input.KeyBoard.{
  KeyBoard, left_shift, caps_lock, set_cache, key_of, handle_key, handle_scan_code, get_key_press,
  get_key_held, is_held,
}

-- An ordinary key: not caps lock and not shift.
abbrev pub IsOrdinary : ℕ → Type 0
IsOrdinary key = (key ≢ caps_lock) × (key ≢ left_shift)

pub make_or_break :
    (k : KeyBoard) (code : ℕ) (is_up : Bool)
    → code < 128
    → handle_scan_code k (if is_up then code + 128 else code) ≡ handle_key k (key_of k code) is_up
unfolding handle_scan_code
make_or_break k code true small = ap₂ (handle_key k) (ap (key_of k) (omega arith)) (ground arith)
make_or_break k code false small = ap₂ (handle_key k) (ap (key_of k) (omega arith)) (ground arith)

module _ (k : KeyBoard) (key : ℕ) (is_up : Bool) where
  pub handle_key-ordinary :
      IsOrdinary key
      → handle_key k key is_up ≡ record k {
        key_cache = set_cache k.key_cache key (not is_up);
        current_key = if is_up then 0 else key;
      }
  unfolding handle_key
  handle_key-ordinary ordinary = rw (caps, shift) refl
    where
      caps : (key == caps_lock) ≡ false
      caps = ground arith

      shift : (key == left_shift) ≡ false
      shift = ground arith

-- For a code below 128 of a key that is neither caps lock nor shift, the code makes the key held
-- and current, and the code plus 128 makes it neither; the other keys and caps lock keep their
-- state.
handle_scan_code-ordinary :
    (k : KeyBoard) (code : ℕ) (is_up : Bool)
    → code < 128
    → IsOrdinary (key_of k code)
    → let k' = handle_scan_code k (if is_up then code + 128 else code) in
      ((other : ℕ)
        → is_held k' other ≡ (if other == key_of k code then not is_up else is_held k other))
      × (get_key_held k' ≡ (if is_up then 0 else key_of k code))
      × (k'.caps_locked ≡ k.caps_locked)
unfolding is_held get_key_held
handle_scan_code-ordinary k code is_up small ordinary =
    rw (make_or_break k code is_up small, handle_key-ordinary k (key_of k code) is_up ordinary)
      ((λ other. refl), refl, refl)

-- The table in use depends on caps lock and shift alone, which no ordinary key changes.
pub key_of-ordinary :
    (k : KeyBoard) (key code : ℕ) (is_up : Bool)
    → IsOrdinary key
    → key_of (handle_key k key is_up) code ≡ key_of k code
unfolding key_of
key_of-ordinary k key code is_up ordinary =
    rw (handle_key-ordinary k key is_up ordinary, apart) refl
  where
    apart : (left_shift == key) ≡ false
    apart = ground arith

twice :
    (k : KeyBoard) (key : ℕ)
    → IsOrdinary key
    → handle_key (handle_key k key false) key true ≡ record k {
      key_cache = set_cache (set_cache k.key_cache key true) key false;
      current_key = 0;
    }
twice k key ordinary =
    handle_key-ordinary (handle_key k key false) key true ordinary
    ∙ rw (handle_key-ordinary k key false ordinary) refl

-- For a code below 128 of a key that is neither caps lock nor shift, pressing and releasing
-- leaves that key and the current key clear, and the other keys and caps lock as they were.
press-release :
    (k : KeyBoard) (code : ℕ)
    → code < 128
    → IsOrdinary (key_of k code)
    → let k' = handle_scan_code (handle_scan_code k code) (code + 128) in
      ((other : ℕ) → is_held k' other ≡ (if other == key_of k code then false else is_held k other))
      × (get_key_held k' ≡ 0)
      × (k'.caps_locked ≡ k.caps_locked)
unfolding is_held get_key_held
press-release k code small ordinary = rw same (cleared, refl, refl)
  where
    key : ℕ
    key = key_of k code

    same : handle_scan_code (handle_scan_code k code) (code + 128) ≡ record k {
      key_cache = set_cache (set_cache k.key_cache key true) key false;
      current_key = 0;
    }
    same =
        ap (λ (s : KeyBoard). handle_scan_code s (code + 128)) (make_or_break k code false small)
        ∙ make_or_break (handle_key k key false) code true small
        ∙ ap (λ (x : ℕ). handle_key (handle_key k key false) x true)
            (key_of-ordinary k key code false ordinary)
        ∙ twice k key ordinary

    cleared :
        (other : ℕ)
        → set_cache (set_cache k.key_cache key true) key false other
          ≡ (if other == key then false else k.key_cache other)
    cleared other = ground arith

-- `GetKeyPress` hands a key out once: the next call gives 0 until another key goes down.
pub get_key_press_once :
    (k : KeyBoard)
    → ((get_key_press k).1 ≡ get_key_held k)
      × ((get_key_press (get_key_press k).0).1 ≡ 0)
      × ((key : ℕ) → is_held (get_key_press k).0 key ≡ is_held k key)
unfolding get_key_press get_key_held is_held
get_key_press_once k = (refl, refl, λ key. refl)
