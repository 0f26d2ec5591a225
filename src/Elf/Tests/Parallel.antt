-- ===== src/Elf/Tests/Parallel.antt =====
-- The statements about the parallel run at one queued file.
use autobuild.Base.{
  ℕ, true, false, List, [], ◌∷◌, ◌||◌, ◌≡◌, refl, if◌then◌else◌, some, done, Bytes, codes, equal,
  pos, contains, emplace, insert_all,
}
use autobuild.Elf.Arch.{aosc_arch_to_debian_arch_suffix}
use autobuild.Elf.Paths.{in_usr_lib, has_slash, base_name}
use autobuild.Elf.Parallel.{
  File, Entry, queued_in, queued, Copied, emplace_each, worked, worker, follows, collect,
  elf_copy_debug_symbols_parallel,
}
use autobuild.ThreadPool.Tasks.{any_of}
use autobuild.ThreadPool.Completion.{ComesToEnd, at_end, behind}
use autobuild.Elf.Parallel.Files.{needed_by, offered_by, failed}
use autobuild.Elf.Parallel.Schedule.{parallel-files, parallel_total}
use autobuild.Elf.Strip.{
  emplace_suffixed, collect_sonames, collect_symbols, process, elf_copy_debug_symbols,
}
use autobuild.Elf.Tests.Strip.{exits_with_zero, source_path, destination, checking, libz}
use autobuild.ThreadPool.{
  Action, enqueues, stops, takes, works, finishes, exits, set_worker, make_workers, take_task,
  work_on, finish_task, exit_loop, act, run, all_exited,
}

abbrev libz_files : Bytes → File
libz_files path = record { opened = true; measured = true; identified = done libz }

abbrev no_files : Bytes → File
no_files path = record { opened = false; measured = false; identified = done libz }

abbrev one_file : List (List Entry)
one_file =
    (record { path = source_path; is_regular_file = true; is_symlink = false }
      ∷ record { path = codes "/b/usr/lib"; is_regular_file = false; is_symlink = false }
      ∷ [])
    ∷ []

abbrev one_thread : List (Action Bytes)
one_thread = enqueues source_path ∷ stops ∷ takes 0 ∷ works 0 ∷ works 0 ∷ finishes 0 ∷ exits 0 ∷ []

abbrev checked : Copied
checked = record {
  status = pos 0;
  so_deps = codes "libc.so.6" ∷ [];
  sonames = codes "libz.so.1:amd64" ∷ [];
}

one_thread_checks :
    elf_copy_debug_symbols_parallel exits_with_zero libz_files destination checking one_file 1
      one_thread [] []
    ≡ some checked
unfolding elf_copy_debug_symbols_parallel follows queued queued_in run act take_task make_workers
    work_on worked emplace_each finish_task set_worker worker elf_copy_debug_symbols in_usr_lib
    base_name has_slash process exit_loop all_exited collect insert_all collect_symbols
    collect_sonames contains emplace equal aosc_arch_to_debian_arch_suffix emplace_suffixed
one_thread_checks = refl

parallel-files_example :
    (checked.status ≡ (
      if any_of (failed exits_with_zero libz_files destination checking) (queued one_file)
      then pos 1
      else pos 0))
    × ((x : Bytes)
        → contains checked.so_deps x ≡ (
            contains [] x
            || any_of (λ src. contains (needed_by libz_files checking src) x) (queued one_file)))
    × ((x : Bytes)
        → contains checked.sonames x ≡ (
            contains [] x
            || any_of (λ src. contains (offered_by libz_files checking src) x) (queued one_file)))
parallel-files_example =
    parallel-files exits_with_zero libz_files destination checking one_file [] [] 0 one_thread
      checked one_thread_checks

no_file_runs_on :
    (src : Bytes) → ComesToEnd (worker exits_with_zero no_files destination checking src)
unfolding worker worked emplace_each elf_copy_debug_symbols
no_file_runs_on src = behind _ _ λ sets. at_end _

parallel_total_example :
    (steps : List (Action Bytes)) × (c : Copied) × (elf_copy_debug_symbols_parallel exits_with_zero
        no_files destination checking one_file 2 steps [] []
      ≡ some c)
parallel_total_example =
    parallel_total exits_with_zero no_files destination checking one_file [] [] no_file_runs_on 2

abbrev listing : Bytes → List Entry
listing path =
    record { path = source_path; is_regular_file = true; is_symlink = false }
    ∷ record { path = codes "/b/usr/lib"; is_regular_file = false; is_symlink = false }
    ∷ []

-- The option `r`, one directory and the destination.
abbrev check_option : List Bytes → List ℕ × List Bytes
check_option list = (b'r' ∷ [], codes "/b" ∷ destination ∷ [])
