-- ===== src/Elf/Strip/Saving.antt =====
-- How symbols are saved before a file is stripped.
use Prim.Native.Nat.{bit_and, ◌/◌}
use autobuild.Base.{
  ℕ, Bool, true, false, not, ◌&&◌, ◌||◌, List, [], ◌∷◌, ◌++◌, ◌==◌, ◌≡◌, ◌≢◌, arith, if◌then◌else◌,
  Option, none, some, Bytes, codes, pos,
}
use autobuild.Elf.Identify.{BinaryType, dynamic, executable, kernel_object, ElfParseResult}
use autobuild.Elf.Paths.{join, base_name, get_filename_from_build_id}
use autobuild.Elf.Sections.{hex, hex_digit}
use autobuild.Elf.Strip.Jobs.{programs, made}
use autobuild.Elf.Strip.{
  Flags, Event, info, warning, debug, creates_parent_of, runs, is_empty, choose, prepare,
  prepare_saving, ready, run_programs, work, process,
}

-- The types of file whose symbols may be saved.
abbrev pub is_saved : BinaryType → Bool
is_saved executable = true
is_saved dynamic = true
is_saved kernel_object = true
is_saved _ = false

-- Where the symbols go: beside the others under the file's own name if that is asked for or there
-- is no build id, and otherwise under the build id.
abbrev pub symbol_path : Bytes → Bytes → Flags → ElfParseResult → Option Bytes
symbol_path src dst flags r =
    if flags.save_with_path || is_empty r.build_id
    then some (join dst (base_name src))
    else get_filename_from_build_id r.build_id dst

abbrev pub objcopy_argv : Bytes → Bytes → List Bytes
objcopy_argv src path =
    codes "objcopy"
    ∷ codes "--only-keep-debug"
    ∷ codes "--compress-debug-sections=zstd"
    ∷ src
    ∷ path
    ∷ []

-- The arguments of `strip` for such a file.
abbrev pub strip_argv : BinaryType → Bytes → List Bytes
strip_argv t src =
    codes "strip"
    ∷ codes "--remove-section=.comment"
    ∷ codes "--remove-section=.note"
    ∷ (if is_executable then codes "-s" else codes "--strip-unneeded")
    ∷ src
    ∷ []
  where
    is_executable : Bool
    is_executable = elim t [ executable ↦ true | _ ↦ false ]

-- What stands before the programs.
abbrev pub saving_events : Bytes → Flags → ElfParseResult → Bytes → List Event
saving_events src flags r path =
    info (codes "Saving and stripping debug symbols from " ++ src)
    ∷ ((if is_empty r.build_id && not flags.save_with_path
          then warning
              ((codes "No build id found in " ++ src) ++ codes ". Saving with relative path")
            ∷ []
          else [])
        ++ ((if flags.save_with_path || is_empty r.build_id
              then debug (codes "Saving to " ++ path) ∷ []
              else [])
            ++ (creates_parent_of path ∷ [])))

prepare_saving-ready :
    (src dst : Bytes) (flags : Flags) (r : ElfParseResult) (path : Bytes)
    → r.has_debug_info ≡ true
    → symbol_path src dst flags r ≡ some path
    → prepare_saving src dst flags r ≡ some (ready (saving_events src flags r path) path)
unfolding prepare_saving
prepare_saving-ready src dst flags r path d p = ground arith

two_characters : (a b : ℕ) (rest dst : Bytes) → get_filename_from_build_id (a ∷ b ∷ rest) dst ≢ none
unfolding get_filename_from_build_id
two_characters a b rest dst = ground arith

module _ (exec : List Bytes → ℕ) (src dst : Bytes) (flags : Flags) (r : ElfParseResult) where
  -- A linked file with debug information, when symbols are to be saved by binutils: the directory
  -- is made, the symbols are copied out, and the file is stripped only if that has succeeded.
  pub process_saves :
      (path : Bytes)
      → is_saved r.bin_type ≡ true
      → r.has_debug_info ≡ true
      → flags.check_only ≡ false
      → flags.strip_only ≡ false
      → flags.use_eu_strip ≡ false
      → symbol_path src dst flags r ≡ some path
      → (events : List Event) × (process exec src dst flags r
          ≡ some (
            events
                ++ (if exec (objcopy_argv src path) == 0
                    then runs (objcopy_argv src path) ∷ runs (strip_argv r.bin_type src) ∷ []
                    else runs (objcopy_argv src path) ∷ []),
            pos (
                if exec (objcopy_argv src path) == 0
                then exec (strip_argv r.bin_type src)
                else exec (objcopy_argv src path)),
          ))
        × (made events ≡ path ∷ [])
        × (programs events ≡ [])
  unfolding process choose work prepare run_programs
  process_saves path t d c s u p = (
    saving_events src flags r path,
    ground (arith, prepare_saving-ready src dst flags r path d p),
    ground arith,
    ground arith,
  )

  -- A build id that was read from a note never makes the path of the symbols fail.
  pub process_total : (desc : Bytes) → r.build_id ≡ hex desc → process exec src dst flags r ≢ none
  unfolding process choose work prepare prepare_saving hex
  process_total [] b = ground arith
  process_total (v ∷ vs) b = ground (
    arith,
    two_characters (hex_digit (bit_and v 0xf0 / 16)) (hex_digit (bit_and v 0x0f)) (hex vs) dst,
  )
