-- ===== src/Shell/Words.antt =====
-- The words of a builtin: `get_argv1`, `get_all_args` and `get_all_args_vector` of
-- native/abnativefunctions.cpp, and the builtins `abinfo`, `abwarn`, `aberr` and `abdbg`.
pub mod Joined
use autobuild.Base.{
  ℕ, zero, suc, List, [], ◌∷◌, ◌++◌, Option, none, some, Bytes, codes, Bool, Outcome, done, fault,
  spin, if◌then◌else◌, then_do,
}
use autobuild.Logger.{LogLevel, debug, info, warning, error, Logger, Write, Json, log}

-- A `WORD_LIST`; `none` is a null pointer in place of a word.
abbrev pub WordList : Type 0
WordList = List (Option Bytes)

abbrev pub get_argv1 : WordList → Option Bytes
get_argv1 [] = none
get_argv1 (word ∷ list) = word

unfoldable pub get_all_args_vector : WordList → List Bytes
get_all_args_vector [] = []
get_all_args_vector (none ∷ list) = get_all_args_vector list
get_all_args_vector (some word ∷ list) = word ∷ get_all_args_vector list

-- `if (list->next) args += " "`.
abbrev separated : WordList → Bytes
separated [] = []
separated (word ∷ list) = codes " "

-- `ansicstr` is bash's, which translates backslash escapes.
module _ (ansicstr : Bytes → Bytes) where
  -- The loop that gathers the words; a null word is not passed over.
  unfoldable pub gather : Bool → ℕ → Bytes → WordList → Outcome Bytes
  gather escape fuel args [] = done args
  gather escape zero args (word ∷ list) = spin
  gather escape (suc fuel) args (none ∷ list) = gather escape fuel args (none ∷ list)
  gather escape (suc fuel) args (some word ∷ list) =
      gather escape fuel (args ++ ((if escape then ansicstr word else word) ++ separated list)) list

  unfoldable pub get_all_args : ℕ → WordList → Bool → Outcome Bytes
  get_all_args fuel list escape = gather escape fuel [] list

  module _ (dump : List (Bytes × Json) → Bytes) (logger : Logger) (fuel : ℕ) where
    unfoldable pub log_args : LogLevel → WordList → Outcome (List Write × ℕ)
    log_args level list =
        then_do (get_all_args fuel list Bool.true)
          λ message. done (log dump logger level message, 0)

    abbrev abinfo : WordList → Outcome (List Write × ℕ)
    abinfo list = log_args info list

    abbrev abwarn : WordList → Outcome (List Write × ℕ)
    abwarn list = log_args warning list

    abbrev aberr : WordList → Outcome (List Write × ℕ)
    aberr list = log_args error list

    abbrev abdbg : WordList → Outcome (List Write × ℕ)
    abdbg list = log_args debug list
