-- ===== src/Shell/Backtrace.antt =====
-- `autobuild_get_backtrace` of native/bashinterface.cpp.
pub mod Frames
use autobuild.Base.{
  ℕ, zero, suc, ◌+◌, Bool, true, false, not, ◌&&◌, ◌||◌, List, [], ◌∷◌, ◌++◌, if◌then◌else◌, Option,
  none, some, Bytes, codes, decimal, atoi, ℤ, pos, negsuc, length,
}
use autobuild.Logger.{error, DiagnosticFrame, Diagnostic}

-- An `ARRAY` is a ring of its elements and a head, whose value is null. A cursor is the list of
-- the elements from it on, and the empty list at the head.
abbrev pub value : List Bytes → Option Bytes
value [] = none
value (x ∷ xs) = some x

-- `cursor->next` in the ring of the elements given.
abbrev pub next : List Bytes → List Bytes → List Bytes
next elements [] = elements
next elements (x ∷ xs) = xs

abbrev or_empty : Option Bytes → Bytes
or_empty none = []
or_empty (some s) = s

abbrev pub positive : ℤ → ℕ
positive (pos n) = n
positive (negsuc n) = 0

unfoldable pub line_of : Option Bytes → ℕ
line_of none = 0
line_of (some s) = positive (atoi s)

abbrev is_some : Option Bytes → Bool
is_some none = false
is_some (some s) = true

-- The loop over the three rings: no pointer in a ring is null, so `max_depth` ends it.
module _ (functions sources linenos : List Bytes) where
  unfoldable pub frames_loop : ℕ → List Bytes → List Bytes → List Bytes → List DiagnosticFrame
  frames_loop zero funcname_cursor bash_source_cursor bash_lineno_cursor = []
  frames_loop (suc max_depth) funcname_cursor bash_source_cursor bash_lineno_cursor =
      let func_str = value funcname_cursor in
      let source_str = value bash_source_cursor in
      let lineno_str = value bash_lineno_cursor in
      let rest =
        frames_loop max_depth (next functions funcname_cursor) (next sources bash_source_cursor)
          (next linenos bash_lineno_cursor) in
      if is_some lineno_str || (is_some source_str || is_some func_str)
      then record {
        file = or_empty source_str;
        function = or_empty func_str;
        line = line_of lineno_str;
      }
        ∷ rest
      else rest

-- What bash knows: the arrays `FUNCNAME`, `BASH_SOURCE` and `BASH_LINENO`, the line that it
-- executes, and the status of the last command or of the one before a trap.
pub record Execution : Type 0 where
  pub funcname : List Bytes
  pub bash_source : List Bytes
  pub bash_lineno : List Bytes
  pub executing_line_number : ℕ
  pub interactive_shell : Bool
  pub running_trap : Bool
  pub trap_saved_exit_value : ℕ
  pub last_command_exit_value : ℕ

-- `diag.code`, and `real_exit_code` of `abdie`.
abbrev pub exit_value : Execution → ℕ
exit_value bash =
    if bash.running_trap then bash.trap_saved_exit_value else bash.last_command_exit_value

abbrev pub interactive_frame : Execution → DiagnosticFrame
interactive_frame bash = record {
  file = codes "<stdin>";
  function = codes "<interactive shell>";
  line = bash.executing_line_number;
}

abbrev or_interactive : Execution → List DiagnosticFrame → List DiagnosticFrame
or_interactive bash [] = if bash.interactive_shell then interactive_frame bash ∷ [] else []
or_interactive bash (frame ∷ frames) = frame ∷ frames

-- `array_push` is bash's. It changes `BASH_LINENO` itself, so that is returned too.
module _ (array_push : List Bytes → Bytes → List Bytes) where
  unfoldable pub autobuild_get_backtrace : Execution → Execution × Diagnostic
  autobuild_get_backtrace bash =
      let linenos = array_push bash.bash_lineno (decimal bash.executing_line_number) in
      let frames =
        frames_loop bash.funcname bash.bash_source linenos (length bash.bash_source + 1) [] [] [] in
      (
        record bash { bash_lineno = linenos },
        record { level = error; code = exit_value bash; frames = or_interactive bash frames },
      )
