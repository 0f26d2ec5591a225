-- ===== src/Shell/Listing.antt =====
-- `ab_read_listing_file` of native/abnativefunctions.cpp, and the loop that puts the texts of a
-- vector into an array of bash, which `set_arch_variables` has too.
pub mod Lines
use autobuild.Base.{
  ℕ, Bool, true, false, ◌==◌, List, [], ◌∷◌, if◌then◌else◌, Option, none, some, ◌>>=◌, Bytes,
  Outcome, done, then_do, or_fault,
}
use autobuild.Shell.Words.{WordList}
use autobuild.Shell.Array.{Address, Heap, Array, Store, update, bash_array_push}

-- The lines that are kept; the first character of an empty line does not exist.
unfoldable pub keep_lines : List Bytes → Option (List Bytes)
keep_lines [] = some []
keep_lines ([] ∷ lines) = none
keep_lines ((c ∷ cs) ∷ lines) =
    keep_lines lines >>= λ kept. some (if c == b'#' then kept else (c ∷ cs) ∷ kept)

module _ (create_element : ℕ → Option Bytes → Heap → Address × Heap) where
  unfoldable pub push_all : List Bytes → Array → Heap → Array × Heap
  push_all [] array heap = (array, heap)
  push_all (line ∷ lines) array heap =
      let (pushed, next) = bash_array_push create_element array (some line) heap in
      push_all lines pushed next

  -- `read` gives the lines of a file, and `make_array` is `make_new_array_variable` without the
  -- name.
  module _ (read : Bytes → Option (List Bytes)) (make_array : Heap → Array × Heap) where
    unfoldable pub ab_read_listing_file : WordList → Store → Outcome (Store × ℕ)
    ab_read_listing_file (some filename ∷ some result_varname ∷ list) store = elim (read filename) [
      | none ↦ done (store, 1)
      | some lines ↦ then_do (or_fault (keep_lines lines)) λ kept.
          let (array, made) = make_array store.heap in
          let (filled, heap) = push_all kept array made in
          done (update result_varname filled heap store, 0)
    ]
    ab_read_listing_file (some filename ∷ none ∷ list) store = done (store, 1)
    ab_read_listing_file (some filename ∷ []) store = done (store, 1)
    ab_read_listing_file (none ∷ list) store = done (store, 1)
    ab_read_listing_file [] store = done (store, 1)
