-- ===== src/Shell/Backtrace/Frames.antt =====
-- The frames that `autobuild_get_backtrace` of native/bashinterface.cpp finds.
use autobuild.Base.{
  strtol, strtol-decimal, append-nil, ends, ℕ, suc, ◌+◌, ◌<◌, ◌≤◌, ◌^◌, List, [], ◌∷◌, some, Bytes,
  decimal, atoi, length, ◌≡◌, refl, ap, sym, ◌∙◌, arith,
}
use autobuild.Logger.{DiagnosticFrame}
use autobuild.Shell.Backtrace.{positive, line_of, frames_loop, Execution, autobuild_get_backtrace}

-- Functions, sources and lines side by side.
unfoldable pub calls : List Bytes → List Bytes → List Bytes → List DiagnosticFrame
calls (f ∷ fs) (s ∷ ss) (l ∷ ls) =
    record { file = s; function = f; line = line_of (some l) } ∷ calls fs ss ls
calls [] ss ls = []
calls (f ∷ fs) [] ls = []
calls (f ∷ fs) (s ∷ ss) [] = []

frames_loop-calls :
    (functions sources linenos fs ss ls : List Bytes)
    → length fs ≡ length ss
    → length ss ≤ length ls
    → frames_loop functions sources linenos (length ss) fs ss ls ≡ calls fs ss ls
unfolding frames_loop calls
frames_loop-calls functions sources linenos [] [] ls h k = refl
frames_loop-calls functions sources linenos (f ∷ fs) [] ls h k = absurd (omega (arith, h))
frames_loop-calls functions sources linenos [] (s ∷ ss) ls h k = absurd (omega (arith, h))
frames_loop-calls functions sources linenos (f ∷ fs) (s ∷ ss) [] h k = absurd (omega (arith, k))
frames_loop-calls functions sources linenos (f ∷ fs) (s ∷ ss) (l ∷ ls) h k =
    ap (λ rest. record { file = s; function = f; line = line_of (some l) } ∷ rest)
      (frames_loop-calls functions sources linenos fs ss ls (omega (arith, h)) (omega (arith, k)))

line_of-decimal : (n : ℕ) → n < 2 ^ 63 → line_of (some (decimal n)) ≡ n
unfolding line_of atoi ends
line_of-decimal n small =
    let number = strtol-decimal n [] small refl in
    ap (λ text. positive (strtol text).0) (sym (append-nil (decimal n)))
    ∙ ap (λ read. positive read.0) number

-- In a function, where bash has as many sources as functions and a line for each call but the
-- innermost, the first frame is the innermost function at the line that is executed, and each
-- other frame is a calling function at the line of its call.
pub get_backtrace-frames :
    (array_push : List Bytes → Bytes → List Bytes) (bash : Execution) (f s : Bytes)
    (fs ss : List Bytes)
    → array_push bash.bash_lineno (decimal bash.executing_line_number)
      ≡ decimal bash.executing_line_number ∷ bash.bash_lineno
    → bash.funcname ≡ f ∷ fs
    → bash.bash_source ≡ s ∷ ss
    → length fs ≡ length ss
    → length ss ≤ length bash.bash_lineno
    → bash.executing_line_number < 2 ^ 63
    → (autobuild_get_backtrace array_push bash).1.frames
      ≡ record { file = s; function = f; line = bash.executing_line_number }
        ∷ calls fs ss bash.bash_lineno
unfolding autobuild_get_backtrace frames_loop calls
get_backtrace-frames array_push bash f s fs ss pushed functions sources h k small =
    let line = decimal bash.executing_line_number in
    let head : length (s ∷ ss) + 1 ≡ suc (length (s ∷ ss)) = omega arith in
    let first =
      ap (λ depth. frames_loop (f ∷ fs) (s ∷ ss) (line ∷ bash.bash_lineno) depth [] [] []) head
      ∙ frames_loop-calls (f ∷ fs) (s ∷ ss) (line ∷ bash.bash_lineno) (f ∷ fs) (s ∷ ss)
          (line ∷ bash.bash_lineno) (omega (arith, h)) (omega (arith, k)) in
    rw (pushed, functions, sources, first, line_of-decimal _ small) refl
