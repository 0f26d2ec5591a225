-- ===== src/Elf/CopyAll.antt =====
-- `abelf_copy_dbg_parallel` of native/abnativefunctions.cpp, and `elf_copy_to_symdir` of
-- native/abnativeelf.cpp with its builtin `abelf_elf_copy_to_symdir`.
pub mod Reported
use autobuild.Base.{
  ℕ, zero, suc, Bool, true, false, List, [], ◌∷◌, ◌++◌, map, if◌then◌else◌, Option, none, some,
  ◌>>=◌, Bytes, ℤ, pos, is_zero, is_negative,
}
use autobuild.Elf.Parallel.{File, Entry, Copied, elf_copy_debug_symbols_parallel}
use autobuild.Elf.Paths.{get_filename_from_build_id}
use autobuild.Elf.Strip.{Flags}
use autobuild.Elf.Builtin.{flags_loop, ex_badusage}
use autobuild.ThreadPool.{Action}

abbrev pub find_both : Flags
find_both = record {
  strip_only = false;
  use_eu_strip = false;
  find_so_deps = true;
  check_only = false;
  save_with_path = false;
  find_sonames = true;
}

-- `args.back()` and `args.pop_back()`: the others, and the last.
unfoldable pub split_last : List Bytes → Option (List Bytes × Bytes)
split_last [] = none
split_last (arg ∷ args) = elim (split_last args) [
  | none ↦ some ([], arg)
  | some (others, last) ↦ some (arg ∷ others, last)
]

-- The status, and the sets that are put into `__AB_SO_DEPS` and `__AB_SONAMES`, if they are.
pub record Outputs : Type 0 where
  pub status : ℕ
  pub sets : Option (List Bytes × List Bytes)

abbrev refused : ℕ → Option Outputs
refused status = some (record { status = status; sets = none })

-- The part behind the call.
unfoldable pub reported : Copied → Outputs
reported c =
    if is_negative c.status
    then record { status = 10; sets = none }
    else record { status = 0; sets = some (c.so_deps, c.sonames) }

-- `directory` is what the iterator gives for a path; `thread_num` and the steps of the threads are
-- arguments, and `none` are steps that are not a run to its end.
module _ (exec : List Bytes → ℕ) (files : Bytes → File) (directory : Bytes → List Entry)
    (getopt : List Bytes → List ℕ × List Bytes) where
  unfoldable pub abelf_copy_dbg_parallel : ℕ → List (Action Bytes) → List Bytes → Option Outputs
  abelf_copy_dbg_parallel thread_num steps list =
      let (opts, rest) = getopt list in
      elim (flags_loop opts find_both) [
        | none ↦ refused 1
        | some flags ↦ elim (split_last rest) [
          | none ↦ refused ex_badusage
          | some (args, dst) ↦
              elf_copy_debug_symbols_parallel exec files dst flags (map directory args) thread_num
                steps [] []
              >>= λ c. some (reported c)
        ]
      ]

-- What `elf_copy_to_symdir` uses of the file system: `none` is an exception, and the Boolean of
-- `copy_file` its result.
pub record FileSystem {ℓ} (S : Type ℓ) : Type ℓ where
  pub parent_path : Bytes → Bytes
  pub create_directories : Bytes → S → Option S
  pub copy_file : Bytes → Bytes → S → Option (S × Bool)
  pub chmod : Bytes → ℕ → S → S × ℤ
  pub chown : Bytes → S → S × ℤ

module _ {ℓ} {S : Type ℓ} (fs : FileSystem S) where
  unfoldable pub set_mode : Bytes → S → S × ℤ
  set_mode final_path s =
      let (t, ret) = fs.chmod final_path 420 s in
      if is_zero ret then fs.chown final_path t else (t, ret)

  unfoldable pub elf_copy_to_symdir : Bytes → Bytes → Bytes → S → Option (S × ℤ)
  elf_copy_to_symdir src_path dst_path build_id s =
      get_filename_from_build_id build_id dst_path >>= λ final_path.
      fs.create_directories (fs.parent_path final_path) s >>= λ made.
      fs.copy_file src_path final_path made >>= λ (copied, done).
      some (if done then (copied, pos 127) else set_mode final_path copied)

  unfoldable pub abelf_elf_copy_to_symdir : List Bytes → S → Option (S × ℤ)
  abelf_elf_copy_to_symdir (src ∷ buildid ∷ symdir ∷ list) s =
      elf_copy_to_symdir src symdir buildid s
  abelf_elf_copy_to_symdir (src ∷ buildid ∷ []) s = some (s, pos ex_badusage)
  abelf_elf_copy_to_symdir (src ∷ []) s = some (s, pos ex_badusage)
  abelf_elf_copy_to_symdir [] s = some (s, pos ex_badusage)
