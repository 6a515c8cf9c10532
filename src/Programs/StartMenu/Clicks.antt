-- ===== src/Programs/StartMenu/Clicks.antt =====
-- Which programs the start menu starts, over any number of messages of the mouse.
use electric_os.Base.{
  ℕ, ◌≡◌, refl, arith, Bool, true, false, List, [], ◌∷◌, ◌++◌, if◌then◌else◌, some,
}
use electric_os.Stl.Gui.{MouseInfo, Button, is_held, is_pressed}
use electric_os.System.{
  Program, system, command_start_program, command_start, find_command, find_program, calculator,
  terminal, tetris,
}
use electric_os.Stl.Cstr.{hash_word, hash_word_loop, next_word, next_word_loop}
use electric_os.Programs.StartMenu.{
  StartableProcess, calculator_name, terminal_name, tetris_name, entry, start, start_command, mouse,
}

-- The messages `ms` one after the other.
pub mouse_all : List MouseInfo → List StartableProcess → List StartableProcess × List (List ℕ)
mouse_all [] ps = (ps, [])
mouse_all (m ∷ ms) ps = let r = mouse m ps in let rest = mouse_all ms r.0 in (rest.0, r.1 ++ rest.1)

-- One of the three entries.
pub data Choice : Type 0 where
  first second third : Choice

abbrev pub entry_of : Choice → StartableProcess
entry_of first = entry 0 calculator_name
entry_of second = entry 1 terminal_name
entry_of third = entry 2 tetris_name

abbrev pub program_of : Choice → Program
program_of first = calculator
program_of second = terminal
program_of third = tetris

-- The mouse is held over the entry in every message.
abbrev pub AllHeld : Choice → List MouseInfo → Type 0
AllHeld c [] = Unit {0}
AllHeld c (m ∷ ms) = (is_held (entry_of c).button m ≡ true) × AllHeld c ms

-- The entries, with `c` pressed or not and the others not.
abbrev entries_at : Choice → Bool → List StartableProcess
entries_at c down =
    let p = λ (q : StartableProcess). record q { button = record (q.button) { pressed = down } } in
    elim c [
      | first ↦ p (entry_of first) ∷ entry_of second ∷ entry_of third ∷ []
      | second ↦ entry_of first ∷ p (entry_of second) ∷ entry_of third ∷ []
      | third ↦ entry_of first ∷ entry_of second ∷ p (entry_of third) ∷ []
    ]

abbrev is_first : Choice → Bool
is_first first = true
is_first _ = false

abbrev is_second : Choice → Bool
is_second second = true
is_second _ = false

abbrev is_third : Choice → Bool
is_third third = true
is_third _ = false

-- The mouse is over one entry only.
held_only :
    (c : Choice) (m : MouseInfo)
    → is_held (entry_of c).button m ≡ true
    → (is_held (entry_of first).button m ≡ is_first c)
      × (is_held (entry_of second).button m ≡ is_second c)
      × (is_held (entry_of third).button m ≡ is_third c)
unfolding is_held
held_only first m h = (h, ground arith, ground arith)
held_only second m h = (ground arith, h, ground arith)
held_only third m h = (ground arith, ground arith, h)

is_held-pressed :
    (b : Button) (m : MouseInfo) (down : Bool)
    → is_held (record b { pressed = down }) m ≡ is_held b m
unfolding is_held
is_held-pressed b m down = refl

mouse-held :
    (c : Choice) (down : Bool) (m : MouseInfo)
    → is_held (entry_of c).button m ≡ true
    → mouse m (entries_at c down)
      ≡ (entries_at c true, (if down then [] else start_command (entry_of c).name ∷ []))
unfolding mouse is_pressed
mouse-held first true m h =
    let o = held_only first m h in
    rw (is_held-pressed (entry_of first).button m true, o.0, o.1, o.2) refl
mouse-held first false m h = let o = held_only first m h in rw (o.0, o.1, o.2) refl
mouse-held second true m h =
    let o = held_only second m h in
    rw (is_held-pressed (entry_of second).button m true, o.0, o.1, o.2) refl
mouse-held second false m h = let o = held_only second m h in rw (o.0, o.1, o.2) refl
mouse-held third true m h =
    let o = held_only third m h in
    rw (is_held-pressed (entry_of third).button m true, o.0, o.1, o.2) refl
mouse-held third false m h = let o = held_only third m h in rw (o.0, o.1, o.2) refl

mouse_all-down :
    (c : Choice) (ms : List MouseInfo)
    → AllHeld c ms
    → mouse_all ms (entries_at c true) ≡ (entries_at c true, [])
unfolding mouse_all
mouse_all-down c [] h = refl
mouse_all-down c (m ∷ ms) h = rw (mouse-held c true m h.0, mouse_all-down c ms h.1) refl

start-program :
    (c : Choice)
    → (system (start_command (entry_of c).name) ≡ some command_start)
      × (command_start_program (start_command (entry_of c).name) ≡ some (program_of c))
unfolding system command_start_program find_command find_program hash_word hash_word_loop next_word
    next_word_loop
start-program first = (refl, refl)
start-program second = (refl, refl)
start-program third = (refl, refl)

-- From the start menu as INIT leaves it, for messages in all of which the mouse is held over one
-- entry, one or more: they run one command altogether, which starts the program that the entry
-- names.
pub mouse_all-start :
    (c : Choice) (m : MouseInfo) (ms : List MouseInfo)
    → AllHeld c (m ∷ ms)
    → ((mouse_all (m ∷ ms) start.processes).1 ≡ start_command (entry_of c).name ∷ [])
      × (system (start_command (entry_of c).name) ≡ some command_start)
      × (command_start_program (start_command (entry_of c).name) ≡ some (program_of c))
unfolding mouse_all
mouse_all-start c m ms h = (once c h, (start-program c).0, (start-program c).1)
  where
    once :
        (d : Choice)
        → AllHeld d (m ∷ ms)
        → (mouse_all (m ∷ ms) start.processes).1 ≡ start_command (entry_of d).name ∷ []
    once first h = rw (mouse-held first false m h.0, mouse_all-down first ms h.1) refl
    once second h = rw (mouse-held second false m h.0, mouse_all-down second ms h.1) refl
    once third h = rw (mouse-held third false m h.0, mouse_all-down third ms h.1) refl
