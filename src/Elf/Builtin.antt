-- ===== src/Elf/Builtin.antt =====
-- `abelf_copy_dbg` of native/abnativefunctions.cpp.
pub mod Status
use autobuild.Base.{
  ℕ, Bool, true, false, List, [], ◌∷◌, ◌==◌, if◌then◌else◌, Option, none, some, Outcome, done,
  fault, spin, then_do, Bytes, map, is_negative,
}
use autobuild.Elf.Parallel.{File, Entry, elf_copy_debug_symbols_parallel}
use autobuild.Elf.Strip.{Flags, elf_copy_debug_symbols}
use autobuild.ThreadPool.{Action}

abbrev pub find_so_deps_only : Flags
find_so_deps_only = record {
  strip_only = false;
  use_eu_strip = false;
  find_so_deps = true;
  check_only = false;
  save_with_path = false;
  find_sonames = false;
}

-- The `switch` on an option; `none` is the early return of 1.
unfoldable pub set_flag : ℕ → Flags → Option Flags
set_flag opt flags =
    if opt == b'x'
    then some (record flags { strip_only = true })
    else if opt == b'r'
    then some (record flags { check_only = true })
    else if opt == b'e'
    then some (record flags { use_eu_strip = true })
    else if opt == b'p'
    then some (record flags { save_with_path = true })
    else none

unfoldable pub flags_loop : List ℕ → Flags → Option Flags
flags_loop [] flags = some flags
flags_loop (opt ∷ opts) flags = elim (set_flag opt flags) [
  | none ↦ none
  | some flags' ↦ flags_loop opts flags'
]

-- `EX_BADUSAGE` of bash.
abbrev pub ex_badusage : ℕ
ex_badusage = 2

-- `getopt` is `internal_getopt` of bash, taken to its end: the options, with another character for
-- one that is not known, and the arguments behind them.
module _ (exec : List Bytes → ℕ) (files : Bytes → File)
    (getopt : List Bytes → List ℕ × List Bytes) where
  unfoldable pub copy_dbg : Flags → Bytes → Bytes → Outcome ℕ
  copy_dbg flags src dst =
      let file = files src in
      then_do
        (elf_copy_debug_symbols exec file.opened file.measured file.identified src dst flags [] [])
        λ c. done (if is_negative c.status then 10 else 0)

  unfoldable pub abelf_copy_dbg : List Bytes → Outcome ℕ
  abelf_copy_dbg list =
      let (opts, rest) = getopt list in
      elim (flags_loop opts find_so_deps_only) [
        | none ↦ done 1
        | some flags ↦ elim rest [
          | [] ↦ done ex_badusage
          | src ∷ more ↦ elim more [ [] ↦ done ex_badusage | dst ∷ others ↦ copy_dbg flags src dst ]
        ]
      ]
