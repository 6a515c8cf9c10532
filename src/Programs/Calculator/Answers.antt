-- ===== src/Programs/Calculator/Answers.antt =====
-- What the calculator computes.
use electric_os.Base.{
  ℕ, ◌+◌, ◌-◌, ◌*◌, ◌/◌, ◌%◌, ◌^◌, ◌≤◌, ◌<◌, Bool, true, false, List, [], ◌∷◌, ◌++◌, map, length,
  ltb, ◌==◌, ◌≡◌, refl, sym, arith, ap, ◌∙◌, u32, u64, sub64, length-append,
}
use native.Mathlib.Nat.{div-le_self}
use mathlib.Core.List.{append_assoc, append-nil}
use electric_os.Stl.Cstr.{to_int}
use electric_os.Stl.Cstr.RoundTrip.{to_int-to_string}
use electric_os.Programs.Calculator.{
  Key, digit, equal, add, sub, mul, div, Calculator, start, show, divided, press_digit, press,
  result,
}

pub press_each : Calculator → List Key → Calculator
press_each c [] = c
press_each c (k ∷ ks) = press_each (press c k) ks

-- The characters of digits.
unfoldable pub typed : List ℕ → List ℕ
typed ds = map (λ n. b'0' + n) ds

to_int-show : (n : ℕ) → to_int (show n) ≡ u32 n
unfolding show
to_int-show n = let (s, e, v) = to_int-to_string n in rw (e) v

press_each-append :
    (c : Calculator) (ks js : List Key) → press_each c (ks ++ js) ≡ press_each (press_each c ks) js
unfolding press_each
press_each-append c [] js = refl
press_each-append c (k ∷ ks) js = press_each-append (press c k) ks js

module _ (text : List ℕ) (previous_num previous_operator : ℕ) (pressed : Key → Bool) where
  pub label : Bool → List ℕ → Calculator
  label clear s = record {
    text = s;
    previous_num = previous_num;
    previous_operator = previous_operator;
    clear_label = clear;
    pressed = pressed;
  }

  press_digit-fits :
      (s : List ℕ) (d : ℕ)
      → length s < 13
      → press_digit (label false s) d ≡ label false (s ++ ((b'0' + d) ∷ []))
  unfolding press_digit label
  press_digit-fits s d room = let fits : ltb (length s) 13 ≡ true = ground arith in rw (fits) refl

  type_more :
      (s ds : List ℕ)
      → length s + length ds ≤ 13
      → press_each (label false s) (map digit ds) ≡ label false (s ++ typed ds)
  unfolding press_each press typed
  type_more s [] room = ap (label false) (sym (append-nil s))
  type_more s (d ∷ ds) room =
      let one_more = length-append s ((b'0' + d) ∷ []) in
      ap (λ c. press_each c (map digit ds)) (press_digit-fits s d (omega arith))
      ∙ type_more (s ++ ((b'0' + d) ∷ [])) ds (omega arith)
      ∙ ap (label false) (append_assoc s ((b'0' + d) ∷ []) (typed ds))

  pub type_number :
      (d : ℕ) (ds : List ℕ)
      → length (d ∷ ds) ≤ 13
      → press_each (label true text) (map digit (d ∷ ds)) ≡ label false (typed (d ∷ ds))
  unfolding press_each press press_digit typed label
  type_number d ds room = type_more ((b'0' + d) ∷ []) ds (omega arith)

-- The label after two numbers of 13 digits at most with a button between them, and the button `=`.
pub answer : List ℕ → Key → List ℕ → List ℕ
answer ds k es = (press_each start (map digit ds ++ (k ∷ map digit es ++ (equal ∷ [])))).text

-- The state in which the operator is pressed.
abbrev first_typed : List ℕ → Calculator
first_typed xs = label (b'0' ∷ []) 0 0 (λ k. false) false xs

answered :
    (d : ℕ) (ds : List ℕ) (k : Key) (e : ℕ) (es : List ℕ) (text : List ℕ) (n code : ℕ)
    → length (d ∷ ds) ≤ 13
    → length (e ∷ es) ≤ 13
    → press (first_typed (typed (d ∷ ds))) k ≡ label text n code (λ k. false) true text
    → answer (d ∷ ds) k (e ∷ es)
      ≡ (result (label text n code (λ k. false) false (typed (e ∷ es)))).text
unfolding answer press_each press label
answered d ds k e es text n code room room' is =
    ap (λ (c : Calculator). c.text)
      (press_each-append start (map digit (d ∷ ds)) (k ∷ map digit (e ∷ es) ++ (equal ∷ []))
        ∙ ap (λ c. press_each c (k ∷ map digit (e ∷ es) ++ (equal ∷ [])))
            (type_number (b'0' ∷ []) 0 0 (λ k. false) d ds room)
        ∙ ap (λ c. press_each c (map digit (e ∷ es) ++ (equal ∷ []))) is
        ∙ press_each-append (label text n code (λ k. false) true text) (map digit (e ∷ es))
            (equal ∷ [])
        ∙ ap (λ c. press_each c (equal ∷ [])) (type_number text n code (λ k. false) e es room'))

-- The numbers of 32 and 64 bits on the way to the label.
sum_cut : (a b : ℕ) → a < 2 ^ 32 → b < 2 ^ 32 → u32 (u64 (u32 (u64 (0 + a)) + b)) ≡ (a + b) % 2 ^ 32
sum_cut a b ha hb = omega arith

difference_cut :
    (a b : ℕ)
    → a < 2 ^ 32
    → b < 2 ^ 32
    → u32 (sub64 (u32 (sub64 0 a)) b) ≡ (2 * 2 ^ 32 - a - b) % 2 ^ 32
difference_cut a b ha hb = omega arith

product_cut : (a b : ℕ) → a < 2 ^ 32 → u32 (u64 (u32 a * b)) ≡ (a * b) % 2 ^ 32
product_cut a b ha = let same : u32 a ≡ a = omega arith in rw (same) (cut (a * b))
  where
    cut : (n : ℕ) → u32 (u64 n) ≡ n % 2 ^ 32
    cut n = omega arith

quotient : (a b : ℕ) → a < 2 ^ 32 → 1 ≤ b → to_int (divided (u32 a) b) ≡ a / b
unfolding divided
quotient a b ha hb =
    let some_divisor : (b == 0) ≡ false = ground arith in
    let same : u32 a ≡ a = omega arith in
    let less = div-le_self a b in
    let whole : u32 (a / b) ≡ a / b = omega arith in
    rw (some_divisor, same) (to_int-show (a / b) ∙ whole)

module _ (d : ℕ) (ds : List ℕ) (e : ℕ) (es : List ℕ) (room : length (d ∷ ds) ≤ 13)
    (room' : length (e ∷ es) ≤ 13) where
  abbrev pub a : ℕ
  a = to_int (typed (d ∷ ds))

  abbrev pub b : ℕ
  b = to_int (typed (e ∷ es))

  answer-add : a < 2 ^ 32 → b < 2 ^ 32 → to_int (answer (d ∷ ds) add (e ∷ es)) ≡ (a + b) % 2 ^ 32
  unfolding press result label
  answer-add ha hb =
      ap to_int (answered d ds add e es _ _ b'+' room room' refl)
      ∙ to_int-show _
      ∙ sum_cut a b ha hb

  answer-mul : a < 2 ^ 32 → to_int (answer (d ∷ ds) mul (e ∷ es)) ≡ (a * b) % 2 ^ 32
  unfolding press result label
  answer-mul ha =
      ap to_int (answered d ds mul e es _ _ b'*' room room' refl)
      ∙ to_int-show _
      ∙ product_cut a b ha

  answer-div : a < 2 ^ 32 → 1 ≤ b → to_int (answer (d ∷ ds) div (e ∷ es)) ≡ a / b
  unfolding press result label
  answer-div ha hb =
      ap to_int (answered d ds div e es _ _ b'/' room room' refl) ∙ quotient a b ha hb

  answer-sub :
      a < 2 ^ 32
      → b < 2 ^ 32
      → to_int (answer (d ∷ ds) sub (e ∷ es)) ≡ (2 * 2 ^ 32 - a - b) % 2 ^ 32
  unfolding press result label
  answer-sub ha hb =
      ap to_int (answered d ds sub e es _ _ b'-' room room' refl)
      ∙ to_int-show _
      ∙ difference_cut a b ha hb

  -- For two numbers of at most 13 digits and of 32 bits, the second of them not 0: entering
  -- the first, a button, the second and `=` shows their sum and product, cut to 32 bits, and
  -- their quotient; for the button `-` it shows the negated sum.
  pub answer_lem :
      a < 2 ^ 32
      → b < 2 ^ 32
      → 1 ≤ b
      → (to_int (answer (d ∷ ds) add (e ∷ es)) ≡ (a + b) % 2 ^ 32)
        × (to_int (answer (d ∷ ds) mul (e ∷ es)) ≡ (a * b) % 2 ^ 32)
        × (to_int (answer (d ∷ ds) div (e ∷ es)) ≡ a / b)
        × (to_int (answer (d ∷ ds) sub (e ∷ es)) ≡ (2 * 2 ^ 32 - a - b) % 2 ^ 32)
  answer_lem ha hb some_b =
      (answer-add ha hb, answer-mul ha, answer-div ha some_b, answer-sub ha hb)
