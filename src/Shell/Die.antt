-- ===== src/Shell/Die.antt =====
-- `abdie` of native/abnativefunctions.cpp.
pub mod Status
mod Tests
use autobuild.Base.{
  ℕ, zero, suc, List, [], ◌∷◌, ◌++◌, Option, none, some, Bytes, codes, Bool, true, false, ◌&&◌,
  ◌==◌, ℤ, pos, negsuc, atoi, if◌then◌else◌,
}
use autobuild.Logger.{Logger, Write, Json, log_exception}
use autobuild.Logger.Diagnosis.{log_diagnostic}
use autobuild.Shell.Strict.{Change, autobuild_switch_strict_mode}
use autobuild.Shell.Words.{WordList, get_argv1}
use autobuild.Shell.Backtrace.{Execution, exit_value, autobuild_get_backtrace}

-- The builtin returns 0, or the shell exits with a status, behind what is written and then changed.
pub data Ending : Type 0 where
  returns : Ending
  exits : ℤ → List Write → List Change → Ending

abbrev tail : WordList → WordList
tail [] = []
tail (word ∷ list) = list

abbrev or_empty : Option Bytes → Bytes
or_empty none = []
or_empty (some s) = s

unfoldable pub exit_code : Execution → Option Bytes → ℤ
exit_code bash none = if exit_value bash == 0 then pos 1 else pos (exit_value bash)
exit_code bash (some value) = atoi value

-- What the code uses of the system: `chdir` gives an error's text, or `none` on success, and
-- `read` the lines of a file as seen from a directory. `array_push`, `dump`, the version and the
-- address are those of the other modules.
pub record Surroundings : Type 0 where
  pub array_push : List Bytes → Bytes → List Bytes
  pub dump : List (Bytes × Json) → Bytes
  pub chdir : Bytes → Option Bytes
  pub read : Bytes → Bytes → Option (List Bytes)
  pub ab_version : Bytes
  pub ab_url : Bytes

module _ (os : Surroundings) (logger : Logger) where
  -- The directory the process is in afterwards, and what is written; `srcdir` is the value of
  -- the variable `SRCDIR`, if it has one.
  unfoldable pub enter_srcdir : Bytes → Option Bytes → Bytes × List Write
  enter_srcdir cwd none = (cwd, [])
  enter_srcdir cwd (some srcdir) = elim (os.chdir srcdir) [
    | none ↦ (srcdir, [])
    | some problem ↦ (
      cwd,
      log_exception os.dump os.ab_version os.ab_url logger
          (codes "Unable to chdir() to " ++ (srcdir ++ (codes ": " ++ problem))),
    )
  ]

  -- What is written before the shell exits.
  unfoldable pub report : Bytes → Option Bytes → Execution → WordList → List Write
  report cwd srcdir bash list =
      let (dir, entered) = enter_srcdir cwd srcdir in
      entered
      ++ (log_diagnostic os.dump (os.read dir) logger (autobuild_get_backtrace os.array_push bash).1
          ++ log_exception os.dump os.ab_version os.ab_url logger (or_empty (get_argv1 list)))

  unfoldable pub abdie : Bytes → Option Bytes → Execution → WordList → Ending
  abdie cwd srcdir bash list =
      if bash.running_trap && bash.trap_saved_exit_value == 0
      then returns
      else exits (exit_code bash (get_argv1 (tail list))) (report cwd srcdir bash list)
          (autobuild_switch_strict_mode false)
