-- ===== src/Shell/Types.antt =====
-- `ab_typecheck`, `ab_isarray` and `ab_isdefined` of native/abnativefunctions.cpp.
pub mod Options
mod Tests
use autobuild.Base.{
  ℕ, Bool, true, false, ◌&&◌, ◌||◌, List, [], ◌∷◌, ◌==◌, if◌then◌else◌, Option, none, some, Bytes,
}
use autobuild.Shell.{Var}
use autobuild.Shell.Words.{WordList, get_argv1}

-- `expected_type`.
pub record Expected : Type 0 where
  pub array : Bool
  pub assoc : Bool
  pub integer : Bool
  pub function : Bool

abbrev pub nothing : Expected
nothing = record { array = false; assoc = false; integer = false; function = false }

-- The `switch` on an option; `none` is the early return of 1.
unfoldable pub expect : ℕ → Expected → Option Expected
expect opt expected =
    if opt == b'a'
    then some (record expected { array = true })
    else if opt == b'h'
    then some (record expected { assoc = true })
    else if opt == b's'
    then some expected
    else if opt == b'i'
    then some (record expected { integer = true })
    else if opt == b'f'
    then some (record expected { function = true })
    else none

unfoldable pub expect_all : List ℕ → Expected → Option Expected
expect_all [] expected = some expected
expect_all (opt ∷ opts) expected = elim (expect opt expected) [
  | none ↦ none
  | some next ↦ expect_all opts next
]

-- `var->attributes & expected_type`.
unfoldable pub has_type : Var → Expected → Bool
has_type var expected =
    var.is_array && expected.array
    || (var.is_assoc && expected.assoc
        || (var.is_integer && expected.integer || var.is_function && expected.function))

-- `find_variable` and `find_function` are bash's, and so is `internal_getopt`, taken to its end:
-- the options and the words behind them.
module _ (find_variable find_function : Bytes → Option Var) where
  unfoldable pub find_either : Bytes → Option Var
  find_either varname = elim (find_variable varname) [
    | some var ↦ some var
    | none ↦ find_function varname
  ]

  unfoldable pub ab_typecheck : (WordList → List ℕ × WordList) → WordList → ℕ
  ab_typecheck getopt list =
      let (opts, rest) = getopt list in
      elim (expect_all opts nothing) [
        | none ↦ 1
        | some expected ↦ elim (get_argv1 rest) [
          | none ↦ 1
          | some varname ↦ elim (find_either varname) [
            | none ↦ 1
            | some var ↦ if has_type var expected then 0 else 1
          ]
        ]
      ]

  unfoldable pub ab_isarray : WordList → ℕ
  ab_isarray list = elim (get_argv1 list) [
    | none ↦ 1
    | some argv1 ↦ elim (find_variable argv1) [
      | none ↦ 1
      | some var ↦ if var.is_array then 0 else 1
    ]
  ]

  -- `is_invisible` is an attribute that only this builtin reads.
  unfoldable pub ab_isdefined : (Bytes → Bool) → WordList → ℕ
  ab_isdefined is_invisible list = elim (get_argv1 list) [
    | none ↦ 1
    | some argv1 ↦ elim (find_variable argv1) [
      | none ↦ 1
      | some var ↦ if is_invisible argv1 then 1 else 0
    ]
  ]
