-- ===== src/Logger/Tests.antt =====
-- A small file and the frames of a failure in it, and the statements about the loggers there.
use autobuild.Base.{ℕ, List, [], ◌∷◌, ◌++◌, Option, none, some, Bytes, codes, ◌≡◌, refl, arith}
use autobuild.Logger.{error, DiagnosticFrame, Diagnostic, colorful_logger, Json, err, endl}
use autobuild.Logger.Snippet.{get_snippet, snippet_loop}
use autobuild.Logger.Snippet.Window.{show_from, get_snippet-window}
use autobuild.Logger.Diagnosis.{included_from, log_diagnostic}
use autobuild.Logger.Diagnosis.Layout.{between, innermost, log_diagnostic-layout}

abbrev script : List Bytes
script = codes "one" ∷ codes "two" ∷ codes "three" ∷ codes "four" ∷ codes "five" ∷ []

get_snippet-window_example :
    get_snippet (some script) 3 ≡ show_from 3 2 (codes "two" ∷ codes "three" ∷ codes "four" ∷ [])
get_snippet-window_example = get_snippet-window script 3 (omega arith) (omega arith)

-- The first line of a file is not shown.
get_snippet_first : get_snippet (some script) 1 ≡ []
unfolding get_snippet snippet_loop
get_snippet_first = refl

abbrev frame : Bytes → ℕ → DiagnosticFrame
frame file line = record { file = file; function = codes "f"; line = line }

abbrev failure : Diagnostic
failure = record {
  level = error;
  code = 2;
  frames = frame (codes "a") 3 ∷ frame (codes "b") 7 ∷ frame (codes "c") 9 ∷ [];
}

abbrev no_dump : List (Bytes × Json) → Bytes
no_dump fields = []

abbrev no_file : Bytes → Option (List Bytes)
no_file file = none

log_diagnostic-layout_example :
    log_diagnostic no_dump no_file colorful_logger failure
    ≡ err (
        (included_from (frame (codes "c") 9)
          ++ (between (frame (codes "b") 7 ∷ []) ++ innermost no_file 2 (frame (codes "a") 3)))
        ++ endl)
      ∷ []
log_diagnostic-layout_example =
    log_diagnostic-layout no_dump no_file failure (frame (codes "a") 3) (frame (codes "c") 9)
      (frame (codes "b") 7 ∷ []) refl
