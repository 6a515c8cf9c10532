-- ===== src/System/Names.antt =====
-- Each command and each program is found by its name.
use electric_os.Base.{ℕ, List, [], ◌∷◌, ◌++◌, Option, none, some, ◌≡◌, refl, ap, u32}
use electric_os.Stl.Cstr.{hash_word, hash_word_loop, next_word, next_word_loop, to_string}
use electric_os.Stl.Cstr.RoundTrip.{to_int-to_string}
use electric_os.ProcessHandler.{Handler, kill_process}
use electric_os.System.{
  Command, Program, name, program_name, find_command, find_program, system, command_start_program,
  kill_command, command_set, command_list, command_help, command_time, command_date, command_kill,
  command_clear, command_start, command_restart, command_shutdown, command_suicide, command_heapvis,
  command_sysfetch, tty, desktop, topbar, systemmenu, startmenu, terminal, calculator, tetris,
}

-- The end of the text, or a blank and what is behind it.
abbrev pub behind : Option (List ℕ) → List ℕ
behind none = []
behind (some more) = b' ' ∷ more

system-name : (k : Command) (o : Option (List ℕ)) → system (name k ++ behind o) ≡ some k
unfolding system find_command hash_word hash_word_loop
system-name command_set none = refl
system-name command_set (some more) = refl
system-name command_list none = refl
system-name command_list (some more) = refl
system-name command_help none = refl
system-name command_help (some more) = refl
system-name command_time none = refl
system-name command_time (some more) = refl
system-name command_date none = refl
system-name command_date (some more) = refl
system-name command_kill none = refl
system-name command_kill (some more) = refl
system-name command_clear none = refl
system-name command_clear (some more) = refl
system-name command_start none = refl
system-name command_start (some more) = refl
system-name command_restart none = refl
system-name command_restart (some more) = refl
system-name command_shutdown none = refl
system-name command_shutdown (some more) = refl
system-name command_suicide none = refl
system-name command_suicide (some more) = refl
system-name command_heapvis none = refl
system-name command_heapvis (some more) = refl
system-name command_sysfetch none = refl
system-name command_sysfetch (some more) = refl

start-name :
    (p : Program) (o : Option (List ℕ))
    → command_start_program (name command_start ++ (b' ' ∷ program_name p ++ behind o)) ≡ some p
unfolding command_start_program find_program hash_word hash_word_loop next_word next_word_loop
start-name tty none = refl
start-name tty (some more) = refl
start-name desktop none = refl
start-name desktop (some more) = refl
start-name topbar none = refl
start-name topbar (some more) = refl
start-name systemmenu none = refl
start-name systemmenu (some more) = refl
start-name startmenu none = refl
start-name startmenu (some more) = refl
start-name terminal none = refl
start-name terminal (some more) = refl
start-name calculator none = refl
start-name calculator (some more) = refl
start-name tetris none = refl
start-name tetris (some more) = refl

-- Each of the 13 command names, at the end of a text or before a blank, is the command that
-- `System` runs; `start` and a program's name start that program; `kill` and an ID as `ToString`
-- writes it kill the process of the ID's low 32 bits.
pub system_lem :
    (o : Option (List ℕ)) (s : Handler) (id : ℕ) (k : Command) (p : Program)
    → (system (name k ++ behind o) ≡ some k)
      × (command_start_program (name command_start ++ (b' ' ∷ program_name p ++ behind o)) ≡ some p)
      × ((digits : List ℕ) × (to_string id ≡ some digits)
          × (kill_command s (name command_kill ++ (b' ' ∷ digits)) ≡ kill_process s (u32 id)))
unfolding kill_command next_word
system_lem o s id k p =
    let (digits, e, v) = to_int-to_string id in
    (system-name k o, start-name p o, (digits, e, ap (kill_process s) v))
