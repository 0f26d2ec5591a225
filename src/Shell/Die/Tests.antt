-- ===== src/Shell/Die/Tests.antt =====
-- A script that fails in a function, and the statements about the backtrace, the words of a
-- builtin and the end of the shell there.
use autobuild.Base.{
  ℕ, true, false, List, [], ◌∷◌, ◌++◌, map, none, some, Bytes, codes, decimal, done, spin, pos, ◌≡◌,
  ◌≢◌, refl, arith, contains, equal,
}
use autobuild.Logger.{plain_logger}
use autobuild.Shell.Backtrace.{Execution, autobuild_get_backtrace}
use autobuild.Shell.Backtrace.Frames.{calls, get_backtrace-frames}
use autobuild.Shell.Words.{WordList, get_all_args}
use autobuild.Shell.Words.Joined.{join, translated, get_all_args-join}
use autobuild.Shell.Die.{Surroundings, abdie}
use autobuild.Shell.Die.Status.{failure, Traps, exit_status, traps_behind, abdie-status}

-- The function `f` of a file is called in line 7 of another one, and line 3 of it is executed.
abbrev execution : Execution
execution = record {
  funcname = codes "f" ∷ codes "main" ∷ [];
  bash_source = codes "a.sh" ∷ codes "b.sh" ∷ [];
  bash_lineno = codes "7" ∷ codes "0" ∷ [];
  executing_line_number = 3;
  interactive_shell = false;
  running_trap = false;
  trap_saved_exit_value = 0;
  last_command_exit_value = 0;
}

abbrev push_front : List Bytes → Bytes → List Bytes
push_front xs x = x ∷ xs

get_backtrace-frames_example :
    (autobuild_get_backtrace push_front execution).1.frames
    ≡ record { file = codes "a.sh"; function = codes "f"; line = 3 }
      ∷ calls (codes "main" ∷ []) (codes "b.sh" ∷ []) (codes "7" ∷ codes "0" ∷ [])
get_backtrace-frames_example =
    get_backtrace-frames push_front execution (codes "f") (codes "a.sh") (codes "main" ∷ [])
      (codes "b.sh" ∷ []) refl refl refl refl (omega arith) (omega arith)

abbrev words : List Bytes
words = codes "no" ∷ codes "file" ∷ []

abbrev plain : Bytes → Bytes
plain s = s

get_all_args-join_example :
    (get_all_args plain 2 (map some words) true ≡ done (join (map (translated plain true) words)))
    × ((rounds : ℕ) → get_all_args plain rounds (map some words ++ none ∷ []) true ≡ spin)
get_all_args-join_example = get_all_args-join plain true words [] 2 (omega arith)

join-words : join words ≡ codes "no file"
unfolding join
join-words = refl

abbrev os : Surroundings
os = record {
  array_push = push_front;
  dump = λ fields. [];
  chdir = λ dir. none;
  read = λ dir file. none;
  ab_version = codes "4";
  ab_url = codes "-";
}

abbrev given : WordList
given = some (codes "bad") ∷ some (decimal 2) ∷ []

-- The traps of the strict mode.
abbrev strict : Traps
strict = record { trap = λ signal. some (codes "abdie"); option = λ name. true }

abdie-status_example :
    let with_status = abdie os plain_logger (codes "/") none execution given in
    (exit_status with_status ≡ some (pos 2))
    × (exit_status (abdie os plain_logger (codes "/") none execution (some (codes "bad") ∷ []))
        ≡ some (pos (failure execution)))
    × (failure execution ≢ 0)
    × ((traps_behind strict with_status).trap (codes "EXIT") ≡ none)
    × ((traps_behind strict with_status).option (codes "errexit") ≡ false)
unfolding contains equal
abdie-status_example =
    abdie-status os plain_logger (codes "/") none execution (some (codes "bad")) strict 2 []
      (codes "EXIT") (codes "errexit") (omega arith)
