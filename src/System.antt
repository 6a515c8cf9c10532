-- ===== src/System.antt =====
-- src/System/System.cpp: which command a text names, which program `start` starts, and the two
-- commands that kill processes. A command's output is left out.
pub mod Names
mod Tests
use electric_os.Base.{
  ℕ, zero, suc, Bool, true, false, List, [], ◌∷◌, ◌==◌, if◌then◌else◌, Option, none, some,
}
use electric_os.Stl.Cstr.{hash_word, next_word, to_int}
use electric_os.ProcessHandler.{Handler, kill_process}

-- The functions of `Commands`.
pub data Command : Type 0 where
  command_set command_list command_help command_time command_date command_kill command_clear
        command_start command_restart command_shutdown command_suicide command_heapvis
        command_sysfetch :
      Command

-- The procedures of `StartableProcesses`.
pub data Program : Type 0 where
  tty desktop topbar systemmenu startmenu terminal calculator tetris : Program

abbrev pub name : Command → List ℕ
name command_set = b's' ∷ b'e' ∷ b't' ∷ []
name command_list = b'l' ∷ b'i' ∷ b's' ∷ b't' ∷ []
name command_help = b'h' ∷ b'e' ∷ b'l' ∷ b'p' ∷ []
name command_time = b't' ∷ b'i' ∷ b'm' ∷ b'e' ∷ []
name command_date = b'd' ∷ b'a' ∷ b't' ∷ b'e' ∷ []
name command_kill = b'k' ∷ b'i' ∷ b'l' ∷ b'l' ∷ []
name command_clear = b'c' ∷ b'l' ∷ b'e' ∷ b'a' ∷ b'r' ∷ []
name command_start = b's' ∷ b't' ∷ b'a' ∷ b'r' ∷ b't' ∷ []
name command_restart = b'r' ∷ b'e' ∷ b's' ∷ b't' ∷ b'a' ∷ b'r' ∷ b't' ∷ []
name command_shutdown = b's' ∷ b'h' ∷ b'u' ∷ b't' ∷ b'd' ∷ b'o' ∷ b'w' ∷ b'n' ∷ []
name command_suicide = b's' ∷ b'u' ∷ b'i' ∷ b'c' ∷ b'i' ∷ b'd' ∷ b'e' ∷ []
name command_heapvis = b'h' ∷ b'e' ∷ b'a' ∷ b'p' ∷ b'v' ∷ b'i' ∷ b's' ∷ []
name command_sysfetch = b's' ∷ b'y' ∷ b's' ∷ b'f' ∷ b'e' ∷ b't' ∷ b'c' ∷ b'h' ∷ []

abbrev pub program_name : Program → List ℕ
program_name tty = b't' ∷ b't' ∷ b'y' ∷ []
program_name desktop = b'd' ∷ b'e' ∷ b's' ∷ b'k' ∷ b't' ∷ b'o' ∷ b'p' ∷ []
program_name topbar = b't' ∷ b'o' ∷ b'p' ∷ b'b' ∷ b'a' ∷ b'r' ∷ []
program_name systemmenu = b's' ∷ b'y' ∷ b's' ∷ b't' ∷ b'e' ∷ b'm' ∷ b'm' ∷ b'e' ∷ b'n' ∷ b'u' ∷ []
program_name startmenu = b's' ∷ b't' ∷ b'a' ∷ b'r' ∷ b't' ∷ b'm' ∷ b'e' ∷ b'n' ∷ b'u' ∷ []
program_name terminal = b't' ∷ b'e' ∷ b'r' ∷ b'm' ∷ b'i' ∷ b'n' ∷ b'a' ∷ b'l' ∷ []
program_name calculator = b'c' ∷ b'a' ∷ b'l' ∷ b'c' ∷ b'u' ∷ b'l' ∷ b'a' ∷ b't' ∷ b'o' ∷ b'r' ∷ []
program_name tetris = b't' ∷ b'e' ∷ b't' ∷ b'r' ∷ b'i' ∷ b's' ∷ []

-- `Commands` and `StartableProcesses`, in their order.
abbrev pub commands : List Command
commands =
    command_set ∷ command_list ∷ command_help ∷ command_time ∷ command_date ∷ command_kill
    ∷ command_clear ∷ command_start ∷ command_restart ∷ command_shutdown ∷ command_suicide
    ∷ command_heapvis ∷ command_sysfetch ∷ []

abbrev pub programs : List Program
programs = tty ∷ desktop ∷ topbar ∷ systemmenu ∷ startmenu ∷ terminal ∷ calculator ∷ tetris ∷ []

-- `HashWord` and `NextWord` of a text; on an empty one they read behind its end.
abbrev pub hash_of : List ℕ → ℕ
hash_of [] = 0
hash_of (c ∷ cs) = hash_word c cs

abbrev pub drop : ℕ → List ℕ → List ℕ
drop zero xs = xs
drop (suc n) [] = []
drop (suc n) (x ∷ xs) = drop n xs

abbrev pub rest_of : List ℕ → List ℕ
rest_of [] = []
rest_of (c ∷ cs) = drop (next_word cs) (c ∷ cs)

-- The first entry of a table whose name has the hash.
unfoldable pub find_command : ℕ → List Command → Option Command
find_command hash [] = none
find_command hash (k ∷ ks) =
    let rest = find_command hash ks in if hash == hash_of (name k) then some k else rest

unfoldable pub find_program : ℕ → List Program → Option Program
find_program hash [] = none
find_program hash (p ∷ ps) =
    let rest = find_program hash ps in if hash == hash_of (program_name p) then some p else rest

-- `System`: the function that is called.
unfoldable pub system : List ℕ → Option Command
system input = find_command (hash_of input) commands

-- `CommandStart`: the program that is started.
unfoldable pub command_start_program : List ℕ → Option Program
command_start_program command = find_program (hash_of (rest_of command)) programs

-- `CommandKill`
unfoldable pub kill_command : Handler → List ℕ → Handler × Bool
kill_command s command = kill_process s (to_int (rest_of command))

-- `CommandSuicide`
unfoldable pub suicide_command : Handler → Handler
suicide_command s = elim s.last_messaged [ none ↦ s | some id ↦ (kill_process s id).0 ]
