-- ===== src/Logger.antt =====
-- The loggers of native/logger.cpp and native/logger.hpp, the types of native/common.hpp they
-- share, and `register_logger_from_env` and `disable_logger` of native/abnativefunctions.cpp.
pub mod Snippet
pub mod Diagnosis
mod Tests
use autobuild.Base.{
  ℕ, Bool, true, false, not, ◌&&◌, ◌||◌, List, [], ◌∷◌, ◌++◌, ◌==◌, if◌then◌else◌, Option, none,
  some, Bytes, codes, equal, starts_with,
}

pub data LogLevel : Type 0 where
  debug info warning error critical : LogLevel

pub record DiagnosticFrame : Type 0 where
  pub file : Bytes
  pub function : Bytes
  pub line : ℕ

pub record Diagnostic : Type 0 where
  pub level : LogLevel
  pub code : ℕ
  pub frames : List DiagnosticFrame

-- The subclasses of `BaseLogger`.
pub data Logger : Type 0 where
  null_logger plain_logger json_logger colorful_logger : Logger

-- What is written, and where to.
pub data Write : Type 0 where
  out err : Bytes → Write

unfoldable pub level_to_string : LogLevel → Bytes
level_to_string debug = codes "DEBUG"
level_to_string info = codes "INFO"
level_to_string warning = codes "WARN"
level_to_string error = codes "ERROR"
level_to_string critical = codes "CRIT"

-- `std::endl`.
abbrev pub endl : Bytes
endl = b'\n' ∷ []

-- `message.empty()` and the like.
abbrev pub is_empty : Bytes → Bool
is_empty [] = true
is_empty (c ∷ cs) = false

-- The values of `nlohmann::json` that are printed here: a text or a number, and an array of
-- objects whose fields are those.
pub data Leaf : Type 0 where
  text : Bytes → Leaf
  number : ℕ → Leaf

pub data Json : Type 0 where
  leaf : Leaf → Json
  array : List (List (Bytes × Leaf)) → Json

-- The escape sequence of a terminal.
abbrev pub escape : Bytes → Bytes
escape s = 27 ∷ (b'[' ∷ s)

-- The quotation marks, in UTF-8.
abbrev quote_left : Bytes
quote_left = 226 ∷ 128 ∷ 152 ∷ []

abbrev quote_right : Bytes
quote_right = 226 ∷ 128 ∷ 153 ∷ []

unfoldable pub plain_prefix : LogLevel → Bytes
plain_prefix info = codes "[INFO]:  "
plain_prefix warning = codes "[WARN]:  "
plain_prefix error = codes "[ERROR]: "
plain_prefix critical = codes "[CRIT]:  "
plain_prefix debug = codes "[DEBUG]: "

unfoldable pub colorful_prefix : LogLevel → Bytes
colorful_prefix info =
    codes "[" ++ (escape (codes "96mINFO") ++ (escape (codes "0m") ++ codes "]:  "))
colorful_prefix warning =
    codes "[" ++ (escape (codes "33mWARN") ++ (escape (codes "0m") ++ codes "]:  "))
colorful_prefix error =
    codes "[" ++ (escape (codes "31mERROR") ++ (escape (codes "0m") ++ codes "]: "))
colorful_prefix critical =
    codes "[" ++ (escape (codes "93mCRIT") ++ (escape (codes "0m") ++ codes "]:  "))
colorful_prefix debug =
    codes "[" ++ (escape (codes "32mDEBUG") ++ (escape (codes "0m") ++ codes "]: "))

-- `dump` is the library's printer of an object.
module _ (dump : List (Bytes × Json) → Bytes) where
  abbrev plain_log : LogLevel → Bytes → List Write
  plain_log level message = out (plain_prefix level ++ (message ++ endl)) ∷ []

  abbrev json_log : LogLevel → Bytes → List Write
  json_log level message =
      out (
        dump (
          (codes "event", leaf (text (codes "log")))
          ∷ (codes "level", leaf (text (level_to_string level)))
          ∷ (codes "message", leaf (text message))
          ∷ [])
        ++ endl)
      ∷ []

  abbrev colorful_log : LogLevel → Bytes → List Write
  colorful_log level message =
      out (
        colorful_prefix level
        ++ (escape (codes "1m") ++ (message ++ (escape (codes "0m") ++ endl))))
      ∷ []

  unfoldable pub log : Logger → LogLevel → Bytes → List Write
  log null_logger level message = []
  log plain_logger level message = plain_log level message
  log json_logger level message = json_log level message
  log colorful_logger level message = colorful_log level message

  -- The address and the version are those of the build.
  module _ (ab_version ab_url : Bytes) where
    abbrev ruler : Bytes
    ruler = codes "------------------------------"

    abbrev banner : Write
    banner = err (ruler ++ (codes "autobuild " ++ (ab_version ++ (ruler ++ endl))))

    abbrev reason : Bytes → Write
    reason message =
        if is_empty message
        then err (codes "Look at the stacktrace to see what happened." ++ endl)
        else err (message ++ endl)

    abbrev null_exception : Bytes → List Write
    null_exception message = if is_empty message then [] else err (message ++ endl) ∷ []

    abbrev plain_exception : Bytes → List Write
    plain_exception message =
        err (codes "autobuild encountered an error and couldn't continue." ++ endl)
        ∷ reason message
        ∷ banner
        ∷ err (codes "Go to " ++ (ab_url ++ (codes " for more information on this error." ++ endl)))
        ∷ []

    abbrev json_exception : Bytes → List Write
    json_exception message =
        out (
          dump (
            (codes "event", leaf (text (codes "exception")))
            ∷ (codes "level", leaf (text (codes "CRIT")))
            ∷ (codes "message", leaf (text message))
            ∷ [])
          ++ endl)
        ∷ []

    abbrev colorful_exception : Bytes → List Write
    colorful_exception message =
        err (
          escape (codes "1;31m")
          ++ (codes "autobuild encountered an error and couldn't continue."
              ++ (escape (codes "0m") ++ endl)))
        ∷ reason message
        ∷ banner
        ∷ err (
            codes "Go to "
            ++ ((quote_left
                  ++ (escape (codes "1m") ++ (ab_url ++ (escape (codes "0m") ++ quote_right))))
                ++ (codes " for more information on this error." ++ endl)))
        ∷ []

    unfoldable pub log_exception : Logger → Bytes → List Write
    log_exception null_logger message = null_exception message
    log_exception plain_logger message = plain_exception message
    log_exception json_logger message = json_exception message
    log_exception colorful_logger message = colorful_exception message

-- `no_color_string && no_color_string[0] == '1'`.
abbrev no_color : Option Bytes → Bool
no_color none = false
no_color (some s) = starts_with (codes "1") s

-- `strncmp(reporter, name, strlen(name)) == 0` and the tests above it; the arguments are the
-- variable `ABREPORTER` and the environment's `NO_COLOR`.
unfoldable pub register_logger_from_env : Option Bytes → Option Bytes → Logger
register_logger_from_env reporter no_color_string = elim reporter [
  | none ↦ if no_color no_color_string then plain_logger else colorful_logger
  | some name ↦
      if starts_with (codes "color") name
      then colorful_logger
      else if starts_with (codes "json") name
      then json_logger
      else plain_logger
]

unfoldable pub disable_logger : Logger → Logger
disable_logger logger = null_logger
