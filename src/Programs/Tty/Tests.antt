-- ===== src/Programs/Tty/Tests.antt =====
-- Typing `ls` into a new terminal.
use electric_os.Base.{ℕ, List, [], ◌∷◌, ◌++◌, true, false, ◌≡◌, refl, arith}
use electric_os.Base.Int.{pos}
use electric_os.Stl.Point.{point}
use electric_os.Input.KeyBoard.{enter}
use electric_os.Programs.Tty.{Tty, clear, keypress, prompt, procedure}
use electric_os.Programs.Tty.Lines.{type_keys, type_keys-enter}

abbrev blank : Tty
blank = record {
  prev_tick = 0;
  command = [];
  text = prompt;
  cursor = point (pos 0) (pos 0);
  redraw_text = false;
  draw_underline = false;
  clear_command = false;
}

-- A system that clears the terminal, and repeats the command.
abbrev clearing : List ℕ → Tty → Tty × List ℕ
clearing cs t = ((procedure (λ c u. (u, [])) [] t clear).0, cs)

type_keys-enter_example :
    (procedure clearing [] (type_keys clearing [] blank (b'l' ∷ b's' ∷ [])) (keypress enter)).0
    ≡ record ((clearing (b'l' ∷ b's' ∷ []) blank).0) {
      text = [] ++ (b'l' ∷ b's' ∷ []) ++ prompt;
      redraw_text = true;
    }
unfolding procedure
type_keys-enter_example =
    type_keys-enter clearing [] blank (b'l' ∷ b's' ∷ []) refl
      (omega arith, omega arith, omega arith, (omega arith, omega arith, omega arith, tt))
      (omega arith)
