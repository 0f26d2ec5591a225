-- ===== src/Logger/Snippet.antt =====
-- `get_snippet` of native/logger.cpp.
pub mod Window
use autobuild.Base.{
  ℕ, suc, ◌+◌, ◌-◌, ◌%◌, ◌^◌, Bool, true, false, ◌&&◌, List, [], ◌∷◌, ◌++◌, ◌==◌, ltb,
  if◌then◌else◌, Option, none, some, Bytes, codes, decimal, pad_left,
}
use autobuild.Logger.{escape, endl}

-- Sums and differences of `size_t`.
abbrev pub plus_size : ℕ → ℕ → ℕ
plus_size a b = (a + b) % 2 ^ 64

abbrev pub minus_size : ℕ → ℕ → ℕ
minus_size a b = (a + (2 ^ 64 - b)) % 2 ^ 64

unfoldable pub snippet_line : ℕ → ℕ → Bytes → Bytes
snippet_line line line_num line_str =
    (if line_num == line then escape (codes "1m>") else codes " ")
    ++ (pad_left 4 (decimal line_num)
        ++ (codes " | " ++ (line_str ++ (escape (codes "0m") ++ endl))))

-- The loop over the lines of the file, of which `line_num` are read.
unfoldable pub snippet_loop : ℕ → ℕ → List Bytes → Bytes
snippet_loop line line_num [] = []
snippet_loop line line_num (line_str ∷ lines) =
    let next = plus_size line_num 1 in
    let rest = snippet_loop line next lines in
    if ltb next (plus_size line 2) && ltb (minus_size line 2) next
    then snippet_line line next line_str ++ rest
    else rest

-- The file's lines, or `none` if it cannot be opened.
unfoldable pub get_snippet : Option (List Bytes) → ℕ → Bytes
get_snippet none line = []
get_snippet (some lines) line = snippet_loop line 0 lines
