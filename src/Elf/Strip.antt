-- ===== src/Elf/Strip.antt =====
-- `elf_copy_debug_symbols` of native/abnativeelf.cpp: what is done with one file. The flags of the
-- source are bits of an `int`; here each is a field. What the function does is a list of events.
pub mod Jobs
pub mod Saving
use autobuild.Base.{
  ℕ, zero, suc, Bool, true, false, not, ◌&&◌, ◌||◌, List, [], ◌∷◌, ◌++◌, ◌==◌, if◌then◌else◌,
  Option, none, some, Outcome, done, fault, then_do, or_fault, Bytes, codes, emplace, insert_all, ℤ,
  pos, negsuc,
}
use autobuild.Elf.Arch.{AoscArch, aosc_arch_to_debian_arch_suffix}
use autobuild.Elf.Identify.{
  BinaryType, invalid, static, dynamic, executable, relocatable, kernel_object, llvm_ir,
  ElfParseResult,
}
use autobuild.Elf.Paths.{base_name, join, get_filename_from_build_id, in_usr_lib}

-- `AB_ELF_…`.
pub record Flags : Type 0 where
  pub strip_only : Bool
  pub use_eu_strip : Bool
  pub find_so_deps : Bool
  pub check_only : Bool
  pub save_with_path : Bool
  pub find_sonames : Bool

pub data Event : Type 0 where
  info warning debug : Bytes → Event
  -- `fs::create_directories` of the parent of a path
  creates_parent_of : Bytes → Event
  -- a program is run with these arguments, its own name first
  runs : List Bytes → Event

abbrev pub is_empty {ℓ} : {A : Type ℓ} → List A → Bool
is_empty [] = true
is_empty (x ∷ xs) = false

-- The sonames of a file, with the suffixes of its architecture behind them.
unfoldable pub emplace_suffixed : Bytes → List Bytes → List Bytes → List Bytes
emplace_suffixed soname [] sonames = sonames
emplace_suffixed soname (x ∷ xs) sonames =
    emplace_suffixed soname xs (emplace (soname ++ (b':' ∷ x)) sonames)

unfoldable pub collect_sonames : Flags → Bool → ElfParseResult → List Bytes → List Bytes
collect_sonames flags in_lib r sonames =
    let suffixes = aosc_arch_to_debian_arch_suffix r.arch in
    if flags.find_sonames && in_lib && not (is_empty r.soname)
    then if is_empty suffixes
      then emplace r.soname sonames
      else emplace_suffixed r.soname suffixes sonames
    else sonames

unfoldable pub collect_symbols : Flags → ElfParseResult → List Bytes → List Bytes
collect_symbols flags r symbols =
    if flags.find_so_deps then insert_all r.needed_libs symbols else symbols

-- `flags`, `args` without the program's name, and `extra_args`.
pub record Job : Type 0 where
  pub flags : Flags
  pub args : List Bytes
  pub extra_args : List Bytes

abbrev pub base_args : List Bytes
base_args = codes "--remove-section=.comment" ∷ codes "--remove-section=.note" ∷ []

pub data Choice : Type 0 where
  returns : ℤ → Choice
  works : Job → Choice

abbrev pub binutils_only : Flags → Flags
binutils_only flags = record flags { strip_only = true; use_eu_strip = false }

-- The `switch` on the type of the file.
unfoldable pub choose : BinaryType → Flags → Choice
choose invalid flags = returns (pos 0)
choose llvm_ir flags = returns (pos 1)
choose static flags = works (record {
  flags = binutils_only flags;
  args = base_args ++ (codes "-R" ∷ codes ".gnu.lto*" ∷ codes "--strip-debug" ∷ []);
  extra_args = codes "--enable-deterministic-archives" ∷ [];
})
choose executable flags =
    works (record { flags = flags; args = base_args ++ (codes "-s" ∷ []); extra_args = [] })
choose relocatable flags = works (record {
  flags = binutils_only flags;
  args = base_args ++ (codes "--strip-debug" ∷ []);
  extra_args = codes "--enable-deterministic-archives" ∷ [];
})
choose dynamic flags =
    works (record { flags = flags; args = base_args; extra_args = codes "--strip-unneeded" ∷ [] })
choose kernel_object flags =
    works (record { flags = flags; args = base_args; extra_args = codes "--strip-unneeded" ∷ [] })

pub record Copied : Type 0 where
  pub events : List Event
  pub status : ℤ
  pub symbols : List Bytes
  pub sonames : List Bytes

-- What stands before the first program is run: the path of the symbols, which is empty if they
-- are not saved, or an early return.
pub data Prepared : Type 0 where
  refuses : List Event → ℤ → Prepared
  ready : List Event → Bytes → Prepared

-- The branch that saves the symbols; `none` is the exception of a build id of one character.
unfoldable pub prepare_saving : Bytes → Bytes → Flags → ElfParseResult → Option Prepared
prepare_saving src dst flags r =
    let saving = info (codes "Saving and stripping debug symbols from " ++ src) in
    let anonymous = is_empty r.build_id && not flags.save_with_path in
    let warned =
      if anonymous
      then warning ((codes "No build id found in " ++ src) ++ codes ". Saving with relative path")
        ∷ []
      else [] in
    let beside = join dst (base_name src) in
    if not r.has_debug_info
    then some
        (refuses (saving ∷ warning (codes "No debug symbols found in " ++ src) ∷ []) (negsuc 2))
    else if flags.save_with_path || anonymous
    then some (
        ready
          ((saving ∷ warned)
            ++ (debug (codes "Saving to " ++ beside) ∷ creates_parent_of beside ∷ []))
          beside)
    else elim (get_filename_from_build_id r.build_id dst) [
      | none ↦ none
      | some path ↦ some (ready (saving ∷ creates_parent_of path ∷ []) path)
    ]

unfoldable pub prepare : Bytes → Bytes → Flags → ElfParseResult → Option Prepared
prepare src dst flags r =
    if flags.strip_only
    then some (ready (info (codes "Stripping debug symbols from " ++ src) ∷ []) [])
    else prepare_saving src dst flags r

module _ (exec : List Bytes → ℕ) where
  -- The programs that are run, and the status that is returned. `exec` gives the status of a child
  -- process for its arguments.
  unfoldable pub run_programs : Bytes → Bytes → Job → List Event × ℕ
  run_programs src path job =
      let eu_strip =
        (codes "eu-strip" ∷ job.args)
        ++ ((if job.flags.strip_only
              then []
              else codes "--reloc-debug-sections" ∷ codes "-f" ∷ path ∷ [])
            ++ (src ∷ [])) in
      let objcopy =
        codes "objcopy"
        ∷ codes "--only-keep-debug"
        ∷ codes "--compress-debug-sections=zstd"
        ∷ src
        ∷ path
        ∷ [] in
      let strip = (codes "strip" ∷ job.args) ++ (job.extra_args ++ (src ∷ [])) in
      if job.flags.use_eu_strip
      then (runs eu_strip ∷ [], exec eu_strip)
      else if job.flags.strip_only
      then (runs strip ∷ [], exec strip)
      else if not (exec objcopy == 0)
      then (runs objcopy ∷ [], exec objcopy)
      else (runs objcopy ∷ runs strip ∷ [], exec strip)

  -- The part behind the `switch`.
  unfoldable pub work : Bytes → Bytes → Job → ElfParseResult → Option (List Event × ℤ)
  work src dst job r = elim (prepare src dst job.flags r) [
    | none ↦ none
    | some (refuses events status) ↦ some (events, status)
    | some (ready events path) ↦
        let (programs, status) = run_programs src path job in some (events ++ programs, pos status)
  ]

  -- The part behind the two sets.
  unfoldable pub process : Bytes → Bytes → Flags → ElfParseResult → Option (List Event × ℤ)
  process src dst flags r =
      let flags' = if not r.has_debug_info then record flags { strip_only = true } else flags in
      if flags.check_only then some ([], pos 0) else elim (choose r.bin_type flags') [
        | returns status ↦ some ([], status)
        | works job ↦ work src dst job r
      ]

  -- `opened` and `measured` tell whether `open` and `fstat` succeed, and `identified` is the
  -- result of `identify_binary_data` on the file.
  unfoldable pub elf_copy_debug_symbols :
      Bool
      → Bool
      → Outcome ElfParseResult
      → Bytes
      → Bytes
      → Flags
      → List Bytes
      → List Bytes
      → Outcome Copied
  elf_copy_debug_symbols opened measured identified src dst flags symbols sonames =
      if not opened || not measured
      then done (record { events = []; status = negsuc 0; symbols = symbols; sonames = sonames })
      else then_do identified λ r. then_do (or_fault (in_usr_lib src)) λ in_lib.
        then_do (or_fault (process src dst flags r)) λ (events, status). done (record {
          events = events;
          status = status;
          symbols = collect_symbols flags r symbols;
          sonames = collect_sonames flags in_lib r sonames;
        })
