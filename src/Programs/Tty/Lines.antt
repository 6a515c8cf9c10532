-- ===== src/Programs/Tty/Lines.antt =====
-- The command's 64 bytes, and the lines that are typed into them.
use electric_os.Base.{
  ℕ, zero, suc, ◌+◌, ◌≤◌, ◌<◌, Bool, true, false, not, List, [], ◌∷◌, ◌++◌, length, ltb, ◌==◌,
  if◌then◌else◌, ◌≡◌, ◌≢◌, refl, arith, ap, ◌∙◌, sym, u64, if_both, length-append,
}
use mathlib.Core.List.{append_assoc, append-nil}
use electric_os.Input.KeyBoard.{enter, backspace}
use electric_os.ProcessHandler.{Request, success, draw}
use electric_os.Programs.Tty.{
  Tty, Message, init, tick, draw_on, keypress, clear, kill, newline, prompt, draw_text, shorter,
  on_key, procedure,
}

shorter_bound : (cs : List ℕ) (n : ℕ) → length cs ≤ n → length (shorter cs) ≤ n
unfolding shorter
shorter_bound [] n h = h
shorter_bound (c ∷ []) n h = omega arith
shorter_bound (c ∷ d ∷ cs) zero h = absurd (omega arith)
shorter_bound (c ∷ d ∷ cs) (suc n) h =
    let rest = shorter_bound (d ∷ cs) n (omega arith) in omega arith

module _ (system : List ℕ → Tty → Tty × List ℕ) (welcome : List ℕ)
    (short : (cs : List ℕ) (t : Tty)
      → length t.command ≤ 63
      → length (system cs t).0.command ≤ 63) where
  -- From a command of at most 63 characters, where what the system runs leaves one, too, every
  -- message leaves one, so that the terminator is inside of the 64 bytes.
  procedure-command :
      (t : Tty) (m : Message)
      → length t.command ≤ 63
      → length (procedure system welcome t m).0.command ≤ 63
  unfolding procedure on_key draw_text
  procedure-command t init h = omega arith
  procedure-command t (tick now) h =
      if_both (λ (r : Tty × Request). length r.0.command ≤ 63) (ltb (u64 (t.prev_tick + 50)) now)
        {x = (record t { draw_underline = not t.draw_underline; prev_tick = now }, draw)}
        {y = (t, success)} h h
  procedure-command t (draw_on width height) h =
      if_both (λ (u : Tty). length u.command ≤ 63) t.redraw_text {y = t} (omega arith) h
  procedure-command t (keypress key) h = if_both IsShort (key == enter) (short t.command _ h) (
      if_both IsShort (key == backspace)
        (if_both IsShort (length t.command == 0) h (shorter_bound t.command 63 h))
        (added (ltb (length t.command) 63) refl))
    where
      IsShort : Tty → Type 0
      IsShort u = length u.command ≤ 63

      added :
          (b : Bool)
          → ltb (length t.command) 63 ≡ b
          → IsShort (
              if b
              then (if key == 0 then t else record t { command = t.command ++ (key ∷ []) })
              else t)
      added true e =
          if_both IsShort (key == 0) h (let n = length-append t.command (key ∷ []) in ground arith)
      added false e = h
  procedure-command t clear h = omega arith
  procedure-command t kill h = omega arith

module _ (system : List ℕ → Tty → Tty × List ℕ) (welcome : List ℕ) where
  -- Keys that are none of those that edit.
  abbrev pub AreOrdinary : List ℕ → Type 0
  AreOrdinary [] = Unit
  AreOrdinary (k ∷ ks) = (k ≢ enter) × (k ≢ backspace) × (k ≢ 0) × AreOrdinary ks

  pub type_keys : Tty → List ℕ → Tty
  type_keys t [] = t
  type_keys t (k ∷ ks) = type_keys (procedure system welcome t (keypress k)).0 ks

  ordinary :
      (t : Tty) (k : ℕ)
      → k ≢ enter
      → k ≢ backspace
      → k ≢ 0
      → length t.command < 63
      → on_key system t k ≡ record t { command = t.command ++ (k ∷ []) }
  unfolding on_key
  ordinary t k e b z room =
      let not_enter : (k == enter) ≡ false = ground arith in
      let not_backspace : (k == backspace) ≡ false = ground arith in
      let not_zero : (k == 0) ≡ false = ground arith in
      let fits : ltb (length t.command) 63 ≡ true = ground arith in
      simp (not_enter, not_backspace, not_zero, fits)

  type_keys-command :
      (t : Tty) (ks : List ℕ)
      → AreOrdinary ks
      → length t.command + length ks ≤ 63
      → type_keys t ks ≡ record t { command = t.command ++ ks }
  unfolding procedure type_keys
  type_keys-command t [] o room = ap (λ cs. record t { command = cs }) (sym (append-nil t.command))
  type_keys-command t (k ∷ ks) (e, b, z, o) room =
      let longer = length-append t.command (k ∷ []) in
      ap (λ u. type_keys u ks) (ordinary t k e b z (omega arith))
      ∙ type_keys-command (record t { command = t.command ++ (k ∷ []) }) ks o (omega arith)
      ∙ ap (λ cs. record t { command = cs }) (append_assoc t.command (k ∷ []) ks)

  -- Where the command is empty, typing at most 63 keys other than the enter key, backspace and
  -- 0, and then the enter key, runs the keys as the command, with the keys and a new line
  -- behind the text; behind the text that the command leaves, its answer and a prompt are put,
  -- to be drawn, and the rest is as the command leaves it.
  pub type_keys-enter :
      (t : Tty) (ks : List ℕ)
      → t.command ≡ []
      → AreOrdinary ks
      → length ks ≤ 63
      → let r = system ks (record t { command = ks; text = t.text ++ ks ++ newline }) in
        (procedure system welcome (type_keys t ks) (keypress enter)).0
        ≡ record (r.0) { text = r.0.text ++ r.1 ++ prompt; redraw_text = true }
  unfolding procedure on_key
  type_keys-enter t ks blank o room =
      ap (λ u. on_key system u enter)
        (type_keys-command t ks o (let none_yet = ap length blank in omega arith)
          ∙ ap (λ cs. record t { command = cs ++ ks }) blank)
