-- ===== src/Logger/Diagnosis.antt =====
-- `logDiagnostic` of the loggers in native/logger.cpp.
pub mod Layout
use autobuild.Base.{
  ℕ, suc, Bool, true, false, not, ◌&&◌, ◌||◌, List, [], ◌∷◌, ◌++◌, ◌==◌, ltb, if◌then◌else◌, Option,
  none, some, Bytes, codes, equal, decimal, length, reverse,
}
use autobuild.Logger.{
  LogLevel, error, DiagnosticFrame, Diagnostic, Logger, null_logger, plain_logger, json_logger,
  colorful_logger, Write, out, err, level_to_string, endl, is_empty, escape, log, Json, Leaf, text,
  number, leaf, array,
}
use autobuild.Logger.Snippet.{get_snippet}

abbrev known : Bytes → Bytes
known name = if is_empty name then codes "<unknown>" else name

-- The line that is printed for a frame.
unfoldable pub plain_frame : DiagnosticFrame → Write
plain_frame diag =
    let function =
      if is_empty diag.function || equal diag.function (codes "source")
      then codes "<unknown>"
      else diag.function in
    out (
      known diag.file
      ++ (codes "("
          ++ (decimal diag.line ++ (codes "): In function `" ++ (function ++ codes "':\n")))))

unfoldable pub plain_frames : List DiagnosticFrame → List Write
plain_frames [] = []
plain_frames (diag ∷ frames) = plain_frame diag ∷ plain_frames frames

abbrev pub frame_fields : DiagnosticFrame → List (Bytes × Leaf)
frame_fields frame =
    (codes "file", text frame.file)
    ∷ (codes "line", number frame.line)
    ∷ (codes "function", text frame.function)
    ∷ []

unfoldable pub json_frames : List DiagnosticFrame → List (List (Bytes × Leaf))
json_frames [] = []
json_frames (frame ∷ frames) = frame_fields frame ∷ json_frames frames

-- `{0}:{1}` of a frame.
abbrev pub place : DiagnosticFrame → Bytes
place frame = frame.file ++ (codes ":" ++ decimal frame.line)

unfoldable pub included_from : DiagnosticFrame → Bytes
included_from frame =
    escape (codes "0mIn file included from ") ++ (escape (codes "1m") ++ (place frame ++ endl))

unfoldable pub called_from : DiagnosticFrame → Bytes
called_from frame =
    escape (codes "0m                 from ") ++ (escape (codes "1m") ++ (place frame ++ endl))

-- The message about the innermost frame.
unfoldable pub raised : ℕ → DiagnosticFrame → Bytes
raised code frame =
    place frame
    ++ (codes ": "
        ++ (escape (codes "0mIn function `")
            ++ (escape (codes "1m")
                ++ (frame.function
                    ++ (codes "':\n"
                        ++ (place frame
                            ++ (codes ": "
                                ++ (escape (codes "91merror: ")
                                    ++ (escape (
                                          codes "39mcommand "
                                          ++ (if code == 0
                                              then codes "raised an error here"
                                              else codes "exited with "
                                                ++ (escape (codes "93m")
                                                    ++ (decimal code ++ escape (codes "39m")))))
                                        ++ (escape (codes "0m") ++ endl))))))))))

-- `read` gives the lines of a file.
module _ (read : Bytes → Option (List Bytes)) (code size : ℕ) where
  -- One round of the loop, where `is_last` is `(it + 1) == diagnostic.frames.rend()`.
  unfoldable pub colorful_frame : DiagnosticFrame → Bool → Bytes → Bytes
  colorful_frame frame is_last buffer =
      let opened = if is_empty buffer then buffer ++ included_from frame else buffer in
      if is_empty buffer && ltb 1 size
      then opened
      else if is_last
      then (opened ++ raised code frame) ++ get_snippet (read frame.file) frame.line
      else opened ++ called_from frame

  -- The loop over the frames, the outermost first.
  unfoldable pub colorful_loop : List DiagnosticFrame → Bytes → Bytes
  colorful_loop [] buffer = buffer
  colorful_loop (frame ∷ []) buffer = colorful_frame frame true buffer
  colorful_loop (frame ∷ next ∷ frames) buffer =
      colorful_loop (next ∷ frames) (colorful_frame frame false buffer)

-- `dump` is the JSON library's printer of an object.
module _ (dump : List (Bytes × Json) → Bytes) (read : Bytes → Option (List Bytes)) where
  unfoldable pub plain_diagnostic : Diagnostic → List Write
  plain_diagnostic diagnostic =
      log dump plain_logger error (codes "Build error detected ^o^")
      ++ (plain_frames diagnostic.frames
          ++ err (codes "Command exited with " ++ (decimal diagnostic.code ++ (codes "." ++ endl)))
            ∷ [])

  unfoldable pub json_diagnostic : Diagnostic → List Write
  json_diagnostic diagnostic =
      out (
        dump (
          (codes "event", leaf (text (codes "diagnostic")))
          ∷ (codes "level", leaf (text (level_to_string diagnostic.level)))
          ∷ (codes "exit_code", leaf (number diagnostic.code))
          ∷ (codes "frames", array (json_frames diagnostic.frames))
          ∷ [])
        ++ endl)
      ∷ []

  unfoldable pub colorful_diagnostic : Diagnostic → List Write
  colorful_diagnostic diagnostic =
      err (
        colorful_loop read diagnostic.code (length diagnostic.frames) (reverse diagnostic.frames) []
        ++ endl)
      ∷ []

  unfoldable pub log_diagnostic : Logger → Diagnostic → List Write
  log_diagnostic null_logger diagnostic = []
  log_diagnostic plain_logger diagnostic = plain_diagnostic diagnostic
  log_diagnostic json_logger diagnostic = json_diagnostic diagnostic
  log_diagnostic colorful_logger diagnostic = colorful_diagnostic diagnostic
