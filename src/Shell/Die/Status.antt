-- ===== src/Shell/Die/Status.antt =====
-- The status that `abdie` of native/abnativefunctions.cpp ends the shell with.
use autobuild.Base.{
  ℕ, ◌<◌, ◌^◌, [], ◌∷◌, Option, none, some, Bytes, ◌&&◌, ◌||◌, ◌==◌, pos, atoi, if◌then◌else◌,
  decimal, strtol, strtol-decimal, append-nil, ends, ◌≡◌, ◌≢◌, refl, ap, List, Bool, true, false,
  not, ℤ, codes, equal, contains, Bool-cases, inl, inr, sym, ◌∙◌, arith,
}
use autobuild.Logger.{Logger}
use autobuild.Shell.Words.{WordList}
use autobuild.Shell.Backtrace.{Execution, exit_value}
use autobuild.Shell.Strict.{Change, sets_option, sets_trap, autobuild_switch_strict_mode}
use autobuild.Shell.Die.{Ending, returns, exits, exit_code, Surroundings, abdie}

pub atoi-decimal : (n : ℕ) → n < 2 ^ 63 → atoi (decimal n) ≡ pos n
unfolding atoi ends
atoi-decimal n small =
    ap (λ text. (strtol text).0) (sym (append-nil (decimal n)))
    ∙ ap (λ read. read.0) (strtol-decimal n [] small refl)

-- A status for failure: the one of bash, or 1 if that is 0.
abbrev pub failure : Execution → ℕ
failure bash = if exit_value bash == 0 then 1 else exit_value bash

failure-nonzero : (bash : Execution) → failure bash ≢ 0
failure-nonzero bash = ground arith

exit_code_none : (bash : Execution) → exit_code bash none ≡ pos (failure bash)
unfolding exit_code
exit_code_none bash = ground arith

-- The traps and the options of a shell.
pub record Traps : Type 0 where
  pub trap : Bytes → Option Bytes
  pub option : Bytes → Bool

-- What bash does, where `-` resets a trap.
unfoldable pub changed : Change → Traps → Traps
changed (sets_option name enable) traps = record traps {
  option = λ other. if equal name other then enable else traps.option other;
}
changed (sets_trap command signals) traps = record traps {
  trap = λ signal.
      if contains signals signal
      then if equal command (codes "-") then none else some command
      else traps.trap signal;
}

unfoldable pub all_changed : List Change → Traps → Traps
all_changed [] traps = traps
all_changed (change ∷ changes) traps = all_changed changes (changed change traps)

-- The status that the shell exits with, if it does.
abbrev pub exit_status : Ending → Option ℤ
exit_status returns = none
exit_status (exits status written changes) = some status

-- The traps and the options behind the builtin, in which the shell exits if it does.
abbrev pub traps_behind : Traps → Ending → Traps
traps_behind traps returns = traps
traps_behind traps (exits status written changes) = all_changed changes traps

two_options :
    (a b set : Bool)
    → (if b then false else if a then false else set) ≡ (not (a || (b || false)) && set)
two_options true true set = refl
two_options true false set = refl
two_options false true set = refl
two_options false false set = refl

module _ (os : Surroundings) (logger : Logger) (cwd : Bytes) (srcdir : Option Bytes)
    (bash : Execution) (message : Option Bytes) (traps : Traps) where
  -- In a trap after a success nothing happens. Otherwise the shell exits with the status below 2^31
  -- that is given as the second word, and without one with bash's own status, in whose place 1 stands
  -- if that is 0; and it exits with no trap on `ERR` and `EXIT`, which would call the builtin again,
  -- and without `errexit` and `errtrace`, all other traps and options being as before.
  pub abdie-status :
      (n : ℕ) (rest : WordList) (signal name : Bytes)
      → n < 2 ^ 31
      → let with_status = abdie os logger cwd srcdir bash (message ∷ some (decimal n) ∷ rest) in
        let without_status = abdie os logger cwd srcdir bash (message ∷ []) in
        let after_success = bash.running_trap && bash.trap_saved_exit_value == 0 in
        (exit_status with_status ≡ (if after_success then none else some (pos n)))
        × (exit_status without_status ≡ (if after_success then none else some (pos (failure bash))))
        × (failure bash ≢ 0)
        × ((traps_behind traps with_status).trap signal ≡ (
            if not after_success && contains (codes "ERR" ∷ codes "EXIT" ∷ []) signal
            then none
            else traps.trap signal))
        × ((traps_behind traps with_status).option name ≡ (
            not (not after_success && contains (codes "errexit" ∷ codes "errtrace" ∷ []) name)
            && traps.option name))
  unfolding exit_code abdie all_changed changed autobuild_switch_strict_mode contains equal
  abdie-status n rest signal name small =
      let reads = atoi-decimal n (omega (arith, small)) in
      elim (Bool-cases (bash.running_trap && bash.trap_saved_exit_value == 0)) [
        | inl after ↦ rw after (refl, refl, failure-nonzero bash, refl, refl)
        | inr failed ↦
            rw (failed, reads)
              (
                refl,
                ap some (exit_code_none bash),
                failure-nonzero bash,
                refl,
                two_options (equal (codes "errexit") name) (equal (codes "errtrace") name)
                    (traps.option name),
              )
      ]
