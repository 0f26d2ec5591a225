-- ===== src/Elf/Builtin/Status.antt =====
-- What the status of the builtin tells.
use autobuild.Base.{
  ℕ, Bool, not, ◌&&◌, ◌||◌, List, [], ◌∷◌, ◌≡◌, arith, if◌then◌else◌, some, Outcome, done, fault,
  spin, Option-cases, inl, inr, Bytes, is_negative,
}
use autobuild.Elf.Identify.{ElfParseResult}
use autobuild.Elf.Parallel.{File}
use autobuild.Elf.Strip.{Flags, Copied, elf_copy_debug_symbols, process}
use autobuild.Elf.Strip.Jobs.{process_nonnegative}
use autobuild.Elf.Builtin.{find_so_deps_only, flags_loop, copy_dbg, abelf_copy_dbg}

copied_status :
    (exec : List Bytes → ℕ) (opened measured : Bool) (i : Outcome ElfParseResult) (src dst : Bytes)
    (flags : Flags) (c : Copied)
    → elf_copy_debug_symbols exec opened measured i src dst flags [] [] ≡ done c
    → is_negative c.status ≡ (not opened || not measured)
unfolding elf_copy_debug_symbols
copied_status exec opened measured (done r) src dst flags c h =
    elim (Option-cases (process exec src dst flags r)) [
      | inl n ↦ ground arith
      | inr ((events, status), n) ↦
          ground (arith, process_nonnegative exec src dst flags r events status n)
    ]
copied_status exec opened measured fault src dst flags c h = ground arith
copied_status exec opened measured spin src dst flags c h = ground arith

-- With flags and arguments that are in order, and if the work comes to its end, the status is 10
-- for a file that cannot be opened or measured, and 0 for all others: a program that has failed on
-- the file is not reported, nor is a file that is LLVM bitcode.
pub abelf_copy_dbg-status :
    (exec : List Bytes → ℕ) (files : Bytes → File) (getopt : List Bytes → List ℕ × List Bytes)
    (list : List Bytes) (opts : List ℕ) (src dst : Bytes) (others : List Bytes) (flags : Flags)
    (c : Copied)
    → getopt list ≡ (opts, src ∷ dst ∷ others)
    → flags_loop opts find_so_deps_only ≡ some flags
    → elf_copy_debug_symbols exec
        (files src).opened
        (files src).measured
        (files src).identified
        src
        dst
        flags
        []
        []
      ≡ done c
    → abelf_copy_dbg exec files getopt list
      ≡ done (if (files src).opened && (files src).measured then 0 else 10)
unfolding abelf_copy_dbg copy_dbg
abelf_copy_dbg-status exec files getopt list opts src dst others flags c g f e = ground (
  arith,
  g,
  f,
  e,
  copied_status exec (files src).opened (files src).measured (files src).identified src dst flags c
      e,
)
