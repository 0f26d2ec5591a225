-- ===== src/Elf/Tests/Strip.antt =====
-- The statements about the stripping of files at small ones.
use autobuild.Base.{
  ℕ, true, false, List, [], ◌∷◌, ◌++◌, ◌≡◌, refl, inl, some, done, Bytes, codes, equal, pos,
  insert_all, emplace, contains,
}
use autobuild.Elf.Arch.{AoscArch}
use autobuild.Elf.Identify.{dynamic, static, ElfParseResult}
use autobuild.Elf.Paths.{in_usr_lib, get_filename_from_build_id, has_slash, base_name, join}
use autobuild.Elf.Sections.{hex, hex_digit}
use autobuild.Elf.Strip.{
  Flags, Event, info, runs, choose, prepare, collect_symbols, collect_sonames, run_programs, work,
  process, elf_copy_debug_symbols,
}
use autobuild.Elf.Strip.Jobs.{programs, made, binutils_argv, process_binutils}
use autobuild.Elf.Builtin.{find_so_deps_only}
use autobuild.Elf.Parallel.{File}
use autobuild.Elf.Strip.{Copied}
use autobuild.Elf.Strip.Saving.{objcopy_argv, strip_argv, process_saves}

abbrev pub exits_with_zero : List Bytes → ℕ
exits_with_zero argv = 0

abbrev pub source_path : Bytes
source_path = codes "/b/usr/lib/libz.so"

abbrev pub destination : Bytes
destination = codes "/dst"

abbrev pub saving : Flags
saving = record {
  strip_only = false;
  use_eu_strip = false;
  find_so_deps = true;
  check_only = false;
  save_with_path = false;
  find_sonames = true;
}

abbrev pub checking : Flags
checking = record saving { check_only = true }

abbrev pub libz : ElfParseResult
libz = record {
  arch = AoscArch.amd64;
  bin_type = dynamic;
  needed_libs = codes "libc.so.6" ∷ [];
  soname = codes "libz.so.1";
  build_id = hex (0xab ∷ 0x01 ∷ []);
  has_debug_info = true;
}

abbrev archive : ElfParseResult
archive = record libz { bin_type = static }

abbrev stripped : ElfParseResult
stripped = record libz { has_debug_info = false }

process_binutils_example :
    process exits_with_zero source_path destination saving archive
    ≡ some (
      info (codes "Stripping debug symbols from " ++ source_path)
          ∷ runs (binutils_argv static source_path)
          ∷ [],
      pos 0,
    )
process_binutils_example =
    process_binutils exits_with_zero source_path destination saving archive refl (inl refl)

abbrev strip_libz : List Event
strip_libz =
    info (codes "Stripping debug symbols from " ++ source_path)
    ∷ runs (strip_argv dynamic source_path)
    ∷ []

stripped_only :
    process exits_with_zero source_path destination saving stripped ≡ some (strip_libz, pos 0)
unfolding process choose work prepare run_programs
stripped_only = refl

abbrev debug_path : Bytes
debug_path = codes "/dst/usr/lib/debug/.build-id/ab/01.debug"

process_saves_example :
    (events : List Event) × (process exits_with_zero source_path destination saving libz
      ≡ some (
        events
            ++ (runs (objcopy_argv source_path debug_path)
                ∷ runs (strip_argv dynamic source_path)
                ∷ []),
        pos 0,
      ))
    × (made events ≡ debug_path ∷ [])
    × (programs events ≡ [])
unfolding get_filename_from_build_id hex join equal hex_digit
process_saves_example =
    process_saves exits_with_zero source_path destination saving libz debug_path refl refl refl refl
      refl refl

abbrev only_libz : Bytes → File
only_libz path = record { opened = equal path source_path; measured = true; identified = done libz }

-- Every program fails.
abbrev exits_with_one : List Bytes → ℕ
exits_with_one argv = 1

abbrev strip_only_option : List Bytes → List ℕ × List Bytes
strip_only_option list = (b'x' ∷ [], source_path ∷ destination ∷ [])

abbrev stripping : Flags
stripping = record find_so_deps_only { strip_only = true }

abbrev strip_failed : Copied
strip_failed = record {
  events = strip_libz;
  status = pos 1;
  symbols = codes "libc.so.6" ∷ [];
  sonames = [];
}

stripping_fails :
    elf_copy_debug_symbols exits_with_one true true
      (done libz)
      source_path
      destination
      stripping
      []
      []
    ≡ done strip_failed
unfolding elf_copy_debug_symbols in_usr_lib base_name has_slash equal process choose work prepare
    run_programs collect_symbols collect_sonames insert_all emplace contains
stripping_fails = refl
