-- ===== src/System/Tests.antt =====
-- Commands on an empty system, and two words with the same hash.
use electric_os.Base.{List, [], ◌∷◌, ◌++◌, none, some, ◌≡◌, refl, u32, false, ℕ}
use electric_os.Base.Int.{pos}
use electric_os.Stl.Point.{point}
use electric_os.Stl.Cstr.{to_string, hash_word, hash_word_loop}
use electric_os.ProcessHandler.{Handler, kill_process}
use electric_os.System.{
  command_start, command_kill, command_set, tetris, name, program_name, system, find_command,
  command_start_program, kill_command,
}
use electric_os.System.Names.{behind, system_lem}

abbrev idle : Handler
idle = record {
  processes = [];
  last_messaged = none;
  focused = none;
  moving = none;
  moving_delta = point (pos 0) (pos 0);
  new_id = 7;
  redraw = false;
  buffer_swap = false;
}

system_lem_example :
    (system (name command_start ++ behind (some (b'a' ∷ []))) ≡ some command_start)
    × (command_start_program
          (name command_start ++ (b' ' ∷ program_name tetris ++ behind (some (b'a' ∷ []))))
        ≡ some tetris)
    × ((digits : List ℕ) × (to_string 12 ≡ some digits)
        × (kill_command idle (name command_kill ++ (b' ' ∷ digits)) ≡ kill_process idle (u32 12)))
system_lem_example = system_lem (some (b'a' ∷ [])) idle 12 command_start tetris

-- The hash takes the low half of each character, so that `3et` runs `set`.
collision : system (b'3' ∷ b'e' ∷ b't' ∷ []) ≡ some command_set
unfolding system find_command hash_word hash_word_loop
collision = refl
