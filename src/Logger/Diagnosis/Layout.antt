-- ===== src/Logger/Diagnosis/Layout.antt =====
-- How the message of `ColorfulLogger::logDiagnostic` in native/logger.cpp is laid out.
use autobuild.Base.{
  lt→ltb, ℕ, true, false, List, [], ◌∷◌, ◌++◌, ltb, Option, Bytes, length, reverse, reverse-append,
  reverse-cons, ◌≡◌, refl, sym, ap, ◌∙◌, arith, length-append, append_assoc,
}
use autobuild.Logger.{DiagnosticFrame, Diagnostic, colorful_logger, err, endl, is_empty, Json}
use autobuild.Logger.Snippet.{get_snippet}
use autobuild.Logger.Diagnosis.{
  included_from, called_from, raised, colorful_frame, colorful_loop, colorful_diagnostic,
  log_diagnostic,
}

-- The lines for the frames between the outermost and the innermost one, in the order given.
unfoldable pub between : List DiagnosticFrame → Bytes
between [] = []
between (frame ∷ frames) = called_from frame ++ between frames

is_empty-append : (s t : Bytes) → is_empty s ≡ false → is_empty (s ++ t) ≡ false
is_empty-append [] t h = absurd cc
is_empty-append (c ∷ cs) t h = refl

is_empty-included_from : (frame : DiagnosticFrame) → is_empty (included_from frame) ≡ false
unfolding included_from
is_empty-included_from frame = refl

module _ (read : Bytes → Option (List Bytes)) (code : ℕ) where
  -- The message for an innermost frame, with what its file has at that place.
  unfoldable pub innermost : DiagnosticFrame → Bytes
  innermost frame = raised code frame ++ get_snippet (read frame.file) frame.line

  colorful_loop-cons :
      (size : ℕ) (frame : DiagnosticFrame) (middle : List DiagnosticFrame) (first : DiagnosticFrame)
      (buffer : Bytes)
      → colorful_loop read code size (frame ∷ (middle ++ first ∷ [])) buffer
        ≡ colorful_loop read code size
            (middle ++ first ∷ [])
            (colorful_frame read code size frame false buffer)
  unfolding colorful_loop
  colorful_loop-cons size frame [] first buffer = refl
  colorful_loop-cons size frame (next ∷ middle) first buffer = refl

  colorful_frame-between :
      (size : ℕ) (frame : DiagnosticFrame) (buffer : Bytes)
      → is_empty buffer ≡ false
      → colorful_frame read code size frame false buffer ≡ buffer ++ called_from frame
  unfolding colorful_frame
  colorful_frame-between size frame buffer h = rw h refl

  -- With something in the buffer, the loop adds a line for each frame and the message at last.
  colorful_loop-rest :
      (size : ℕ) (middle : List DiagnosticFrame) (first : DiagnosticFrame) (buffer : Bytes)
      → is_empty buffer ≡ false
      → colorful_loop read code size (middle ++ first ∷ []) buffer
        ≡ buffer ++ (between middle ++ innermost first)
  unfolding colorful_loop colorful_frame between innermost
  colorful_loop-rest size [] first buffer h = rw h (append_assoc buffer (raised code first) _)
  colorful_loop-rest size (frame ∷ middle) first buffer h =
      let longer = is_empty-append buffer (called_from frame) h in
      colorful_loop-cons size frame middle first buffer
      ∙ ap (colorful_loop read code size (middle ++ first ∷ []))
          (colorful_frame-between size frame buffer h)
      ∙ colorful_loop-rest size middle first (buffer ++ called_from frame) longer
      ∙ append_assoc buffer (called_from frame) _
      ∙ ap (λ s. buffer ++ s) (sym (append_assoc (called_from frame) (between middle) _))

  -- The first round with two frames or more.
  colorful_frame-outermost :
      (size : ℕ) (frame : DiagnosticFrame)
      → ltb 1 size ≡ true
      → colorful_frame read code size frame false [] ≡ included_from frame
  unfolding colorful_frame
  colorful_frame-outermost size frame h = rw h refl

reverse-ends :
    {A : Type 0}
    → (first last : A) (middle : List A)
    → reverse (first ∷ (middle ++ last ∷ [])) ≡ last ∷ (reverse middle ++ first ∷ [])
reverse-ends first last middle =
    reverse-cons first (middle ++ last ∷ [])
    ∙ ap (λ xs. xs ++ first ∷ []) (reverse-append middle (last ∷ []))

-- The message on a diagnostic with two frames or more names the outermost frame, then the frames
-- between, from the outside in, and then what was raised in the innermost one, with a piece of its
-- file.
pub log_diagnostic-layout :
    (dump : List (Bytes × Json) → Bytes) (read : Bytes → Option (List Bytes))
    (diagnostic : Diagnostic) (first last : DiagnosticFrame) (middle : List DiagnosticFrame)
    → diagnostic.frames ≡ first ∷ (middle ++ last ∷ [])
    → log_diagnostic dump read colorful_logger diagnostic
      ≡ err (
          (included_from last ++ (between (reverse middle) ++ innermost read diagnostic.code first))
          ++ endl)
        ∷ []
unfolding log_diagnostic colorful_diagnostic
log_diagnostic-layout dump read diagnostic first last middle h =
    let size = length (first ∷ (middle ++ last ∷ [])) in
    let several : ltb 1 size ≡ true =
      lt→ltb 1 size (omega (arith, length-append middle (last ∷ []))) in
    let message =
      colorful_loop-cons read diagnostic.code size last (reverse middle) first []
      ∙ ap (colorful_loop read diagnostic.code size (reverse middle ++ first ∷ []))
          (colorful_frame-outermost read diagnostic.code size last several)
      ∙ colorful_loop-rest read diagnostic.code size (reverse middle) first (included_from last)
          (is_empty-included_from last) in
    rw (h, reverse-ends first last middle) (ap (λ s. err (s ++ endl) ∷ []) message)
