-- ===== src/Elf/CopyAll/Reported.antt =====
-- What `abelf_copy_dbg_parallel` of native/abnativefunctions.cpp reports.
use autobuild.Base.{
  ℕ, suc, Bool, true, false, List, [], ◌∷◌, ◌++◌, map, if◌then◌else◌, some, Bytes, pos, is_negative,
  contains, ◌≡◌, refl, ap, ◌∙◌,
}
use autobuild.Elf.Parallel.{File, Entry, Copied, queued, elf_copy_debug_symbols_parallel}
use autobuild.ThreadPool.Tasks.{any_of}
use autobuild.Elf.Parallel.Files.{needed_by, offered_by}
use autobuild.Elf.Parallel.Schedule.{parallel-files}
use autobuild.Elf.Strip.{Flags}
use autobuild.Elf.Builtin.{flags_loop}
use autobuild.Elf.CopyAll.{find_both, split_last, reported, abelf_copy_dbg_parallel}
use autobuild.ThreadPool.{Action}

split_last-snoc :
    (args : List Bytes) (dst : Bytes) → split_last (args ++ dst ∷ []) ≡ some (args, dst)
unfolding split_last
split_last-snoc [] dst = refl
split_last-snoc (arg ∷ args) dst = rw (split_last, split_last-snoc args dst) refl

not_negative : (failed_file : Bool) → is_negative (if failed_file then pos 1 else pos 0) ≡ false
not_negative true = refl
not_negative false = refl

-- A run to its end on a row of directories and a destination: the status is 0, whether or not
-- some file has failed, and the two arrays have the libraries that the queued files need and the
-- names that they offer.
pub copy_dbg_parallel-sets :
    (exec : List Bytes → ℕ) (files : Bytes → File) (directory : Bytes → List Entry)
    (getopt : List Bytes → List ℕ × List Bytes) (list args : List Bytes) (dst : Bytes)
    (opts : List ℕ) (flags : Flags) (n : ℕ) (steps : List (Action Bytes)) (c : Copied)
    → getopt list ≡ (opts, args ++ dst ∷ [])
    → flags_loop opts find_both ≡ some flags
    → elf_copy_debug_symbols_parallel exec files dst flags (map directory args) (suc n) steps [] []
      ≡ some c
    → (so_deps : List Bytes) × (sonames : List Bytes) × (abelf_copy_dbg_parallel exec files
          directory getopt
          (suc n)
          steps
          list
        ≡ some (record { status = 0; sets = some (so_deps, sonames) }))
      × ((x : Bytes)
          → contains so_deps x
            ≡ any_of (λ src. contains (needed_by files flags src) x) (queued (map directory args)))
      × ((x : Bytes)
          → contains sonames x
            ≡ any_of (λ src. contains (offered_by files flags src) x) (queued (map directory args)))
unfolding abelf_copy_dbg_parallel reported contains
copy_dbg_parallel-sets exec files directory getopt list args dst opts flags n steps c parsed flagged
      ran =
    let (status, needed, offered) =
      parallel-files exec files dst flags (map directory args) [] [] n steps c ran in
    let positive : is_negative c.status ≡ false = ap is_negative status ∙ not_negative _ in
    (
      c.so_deps,
      c.sonames,
      rw (abelf_copy_dbg_parallel, parsed, flagged, parsed, split_last-snoc args dst, ran, positive)
          refl,
      needed,
      offered,
    )
