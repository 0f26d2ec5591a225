-- ===== src/Elf/Strip/Jobs.antt =====
-- Which programs are run on a file.
use autobuild.Base.{
  ℕ, ◌≤◌, Bool, true, false, List, [], ◌∷◌, ◌++◌, ◌≡◌, ◌⊎◌, arith, some, done, Bytes, codes, ℤ,
  is_negative, pos, length,
}
use autobuild.Elf.Identify.{BinaryType, static, relocatable, ElfParseResult}
use autobuild.Elf.Paths.{in_usr_lib}
use autobuild.Elf.Strip.{
  Flags, Event, info, warning, debug, creates_parent_of, runs, collect_symbols, collect_sonames,
  choose, prepare, prepare_saving, run_programs, work, process, elf_copy_debug_symbols,
}

-- The programs among the events, in order.
abbrev pub programs : List Event → List (List Bytes)
programs [] = []
programs (runs argv ∷ es) = argv ∷ programs es
programs (info m ∷ es) = programs es
programs (warning m ∷ es) = programs es
programs (debug m ∷ es) = programs es
programs (creates_parent_of p ∷ es) = programs es

-- The paths whose directories are made.
abbrev pub made : List Event → List Bytes
made [] = []
made (creates_parent_of p ∷ es) = p ∷ made es
made (info m ∷ es) = made es
made (warning m ∷ es) = made es
made (debug m ∷ es) = made es
made (runs argv ∷ es) = made es

-- The arguments of `strip` for an archive, and for a file that can be relocated.
abbrev pub binutils_argv : BinaryType → Bytes → List Bytes
binutils_argv static src =
    codes "strip"
    ∷ codes "--remove-section=.comment"
    ∷ codes "--remove-section=.note"
    ∷ codes "-R"
    ∷ codes ".gnu.lto*"
    ∷ codes "--strip-debug"
    ∷ codes "--enable-deterministic-archives"
    ∷ src
    ∷ []
binutils_argv _ src =
    codes "strip"
    ∷ codes "--remove-section=.comment"
    ∷ codes "--remove-section=.note"
    ∷ codes "--strip-debug"
    ∷ codes "--enable-deterministic-archives"
    ∷ src
    ∷ []

module _ (exec : List Bytes → ℕ) where
  -- A file that is identified and is only checked is left alone, whatever it is: nothing is run,
  -- and only the two sets grow. The path must not make the test for `/usr/lib` read out of bounds.
  pub copy_check_only :
      (r : ElfParseResult) (src dst : Bytes) (flags : Flags) (symbols sonames : List Bytes)
      (in_lib : Bool)
      → flags.check_only ≡ true
      → in_usr_lib src ≡ some in_lib
      → elf_copy_debug_symbols exec true true (done r) src dst flags symbols sonames
        ≡ done (record {
          events = [];
          status = pos 0;
          symbols = collect_symbols flags r symbols;
          sonames = collect_sonames flags in_lib r sonames;
        })
  unfolding elf_copy_debug_symbols process
  copy_check_only r src dst flags symbols sonames in_lib h e = ground arith

  -- Archives and relocatable files are stripped by `strip` of binutils, once, and their symbols
  -- are not saved, whatever the other flags say, unless the file is only checked.
  pub process_binutils :
      (src dst : Bytes) (flags : Flags) (r : ElfParseResult)
      → flags.check_only ≡ false
      → (r.bin_type ≡ static) ⊎ (r.bin_type ≡ relocatable)
      → process exec src dst flags r
        ≡ some (
          info (codes "Stripping debug symbols from " ++ src)
              ∷ runs (binutils_argv r.bin_type src)
              ∷ [],
          pos (exec (binutils_argv r.bin_type src)),
        )
  unfolding process choose work prepare run_programs
  process_binutils src dst flags r h t = ground arith

  -- A file without debug information has no symbols saved: no directory is made, and neither
  -- `objcopy` nor a second program is run.
  pub process_without_debug_info :
      (src dst : Bytes) (flags : Flags) (r : ElfParseResult) (events : List Event) (status : ℤ)
      → r.has_debug_info ≡ false
      → process exec src dst flags r ≡ some (events, status)
      → (made events ≡ []) × (length (programs events) ≤ 1)
  unfolding process choose work prepare run_programs
  process_without_debug_info src dst flags r events status h e = ground arith

  -- No negative status is returned for a file that was identified; in particular the early return
  -- of -3 is never taken, since a file without debug information is only stripped.
  pub process_nonnegative :
      (src dst : Bytes) (flags : Flags) (r : ElfParseResult) (events : List Event) (status : ℤ)
      → process exec src dst flags r ≡ some (events, status)
      → is_negative status ≡ false
  unfolding process choose work prepare prepare_saving run_programs
  process_nonnegative src dst flags r events status e = ground arith
