-- ===== src/Elf/Identify.antt =====
-- `identify_binary_data` of native/abnativeelf.cpp: what kind of file some bytes are, and what
-- libelf tells of them.
pub mod Reported
use autobuild.Base.{
  ℕ, Bool, true, false, not, ◌&&◌, ◌||◌, List, [], ◌∷◌, ltb, leb, ◌==◌, if◌then◌else◌, Outcome,
  done, then_do, or_fault, Bytes, codes, equal, length, take,
}
use autobuild.Elf.Arch.{AoscArch, Endianness, detect_architecture, em_arm}
use autobuild.Elf.Arm.{get_elf_arm_arch}
use autobuild.Elf.Sections.{
  ElfFile, get_elf_dynstrtab, get_elf_needed, get_elf_soname, get_elf_build_id, maybe_kernel_object,
  is_debug_info_present,
}

pub data BinaryType : Type 0 where
  invalid static dynamic executable relocatable kernel_object llvm_ir : BinaryType

pub record ElfParseResult : Type 0 where
  pub needed_libs : List Bytes
  pub build_id : Bytes
  pub soname : Bytes
  pub bin_type : BinaryType
  pub arch : AoscArch
  pub has_debug_info : Bool

-- `ELFParseResult result{}`.
abbrev pub no_result : ElfParseResult
no_result = record {
  needed_libs = [];
  build_id = [];
  soname = [];
  bin_type = invalid;
  arch = AoscArch.none;
  has_debug_info = false;
}

abbrev pub ar_magic : Bytes
ar_magic = codes "!<arch>\n"

abbrev pub ar_thin_magic : Bytes
ar_thin_magic = codes "!<thin>\n"

abbrev pub llvm_bc_magic : Bytes
llvm_bc_magic = 0x42 ∷ 0x43 ∷ 0xc0 ∷ 0xde ∷ []

-- `ELFMAG`.
abbrev pub elf_magic : Bytes
elf_magic = 0x7f ∷ 0x45 ∷ 0x4c ∷ 0x46 ∷ []

-- `sizeof(Elf32_Ehdr)`.
abbrev pub elf_min_size : ℕ
elf_min_size = 52

-- Whether there are `n` bytes, and they are the ones given.
abbrev pub begins : Bytes → ℕ → Bytes → Bool
begins bytes n magic = leb n (length bytes) && equal (take n bytes) magic

-- The `switch` on `e_type`.
unfoldable pub type_of : ℕ → BinaryType
type_of e_type =
    if e_type == 2
    then executable
    else if e_type == 3
    then dynamic
    else if e_type == 1
    then relocatable
    else invalid

abbrev pub is_relocatable : BinaryType → Bool
is_relocatable relocatable = true
is_relocatable _ = false

abbrev pub endian_of : ℕ → Endianness
endian_of e_data = if e_data == 1 then Endianness.little else Endianness.big

-- The architecture; the attributes are read for ARM only, with `dynstrtab` in the place of the
-- table of section names, as the source hands it on.
unfoldable pub arch_of : ℕ → ElfFile → Outcome AoscArch
arch_of fuel elf =
    let endian = endian_of elf.e_data in
    let detected =
      λ (arm : AoscArch). detect_architecture elf.e_machine elf.e_flags endian arm elf.is_64bit in
    let attributes = get_elf_arm_arch fuel elf endian (get_elf_dynstrtab elf) in
    if elf.e_machine == em_arm
    then then_do attributes (λ arm. done (detected arm))
    else done (detected AoscArch.none)

-- The part of the function behind the test of `e_shstrndx`.
unfoldable pub identify_sections : ℕ → ElfFile → Outcome ElfParseResult
identify_sections fuel elf =
    let type = type_of elf.e_type in
    let dynstrtab = get_elf_dynstrtab elf in
    let kernel = is_relocatable type && maybe_kernel_object elf in
    then_do (or_fault (get_elf_soname elf dynstrtab)) λ soname.
      then_do (if kernel then done [] else or_fault (get_elf_needed elf dynstrtab)) λ needed.
        then_do (arch_of fuel elf) λ arch. done (record {
          needed_libs = needed;
          build_id = get_elf_build_id elf;
          soname = soname;
          bin_type = if kernel then kernel_object else type;
          arch = arch;
          has_debug_info = is_debug_info_present elf;
        })

unfoldable pub identify_elf : ℕ → ElfFile → Outcome ElfParseResult
identify_elf fuel elf =
    let whole = identify_sections fuel elf in
    if not (elf.e_data == 1) && not (elf.e_data == 2)
    then done no_result
    else if elf.e_shstrndx == 0
    then done (record no_result { bin_type = type_of elf.e_type })
    else whole

-- `elf` is what libelf makes of the bytes.
unfoldable pub identify_binary_data : ℕ → Bytes → ElfFile → Outcome ElfParseResult
identify_binary_data fuel bytes elf =
    if begins bytes 8 ar_magic || begins bytes 8 ar_thin_magic
    then done (record no_result { bin_type = static; has_debug_info = true })
    else if begins bytes 4 llvm_bc_magic
    then done (record no_result { bin_type = llvm_ir })
    else if ltb (length bytes) elf_min_size
    then done no_result
    else if not (equal (take 4 bytes) elf_magic)
    then done no_result
    else identify_elf fuel elf
