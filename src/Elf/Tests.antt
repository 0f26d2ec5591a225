-- ===== src/Elf/Tests.antt =====
-- A small ARM file, and the statements about ELF files at it.
mod Parallel
mod Strip
use autobuild.Base.{
  ℕ, zero, suc, ◌+◌, ◌*◌, Bool, true, false, ◌||◌, List, [], ◌∷◌, ◌++◌, ◌≡◌, ◌≢◌, ◌↔◌, refl, arith,
  ◌==◌, if◌then◌else◌, inl, inr, Bool-cases, Option, none, some, Outcome, done, spin, Bytes, codes,
  equal, contains, all, ltb, starts_with, length, ◌⊎◌,
}
use autobuild.Elf.Arch.{
  AoscArch, Endianness, parse_aosc_arch_name, aosc_arch_to_debian_arch_suffix, detect_architecture,
  em_arm, em_mips,
}
use autobuild.Elf.Arch.Names.{
  arch_name, family, parse_aosc_arch_name_lem, debian_arch_suffix-distinct,
}
use autobuild.Elf.Arch.Detect.{fits, detect_architecture_complete}
use autobuild.Elf.Arm.{
  Scan, section_round, read_le32, attributes_loop, attribute_round, uleb_loop, shift_int,
  is_null_terminated_string, attribute, settle, decode_uleb128, sections_loop, get_elf_arm_arch,
}
use autobuild.Elf.Arm.Progress.{arm_arch}
use autobuild.Elf.Arm.Result.{get_elf_arm_arch-arm, sections_loop_spins}
use autobuild.Elf.Arm.Uleb.{uleb128, decode_uleb128-uleb128, decode_uleb128_two_bytes}
use autobuild.Elf.Identify.{
  arch_of, endian_of, ElfParseResult, no_result, identify_elf, identify_sections,
  identify_binary_data, kernel_object, relocatable, type_of,
}
use autobuild.Elf.Identify.Reported.{arch_of_arm, arch_of-fits, identify_binary_data_kernel}
use autobuild.Elf.Sections.{
  Shdr, Dyn, ElfFile, find_elf_section_header, matches, get_elf_dynstrtab, get_elf_needed,
  get_elf_soname, soname_index, soname_in, hex, get_elf_build_id, debug_info_in,
  is_debug_info_present, maybe_kernel_object,
}
use autobuild.Elf.Sections.BuildId.{unhex, is_hexadecimal, unhex-hex}
use autobuild.Elf.Sections.Debug.{
  HasNames, nil, cons, any_name, taken_for_debug, is_debug_info_present-names,
}
use autobuild.Elf.Sections.Dynamic.{
  needed_indices, texts, get_elf_needed-texts, get_elf_soname_without_dynstr,
}

-- Table 1 holds the names of the sections, and table 2 the dynamic strings.
abbrev small_strptr : ℕ → ℕ → Option Bytes
small_strptr table i =
    if table == 1
    then if i == 1
      then some (codes ".text")
      else if i == 2
      then some (codes ".dynstr")
      else if i == 3
      then some (codes ".ARM.attributes")
      else if i == 4
      then some (codes ".dynamic")
      else none
    else if table == 2
    then if i == 1
      then some (codes "libc.so.6")
      else if i == 2
      then some (codes "libz.so.1")
      else none
    else none

abbrev section_header : ℕ → ℕ → ℕ → ℕ → Shdr
section_header name type offset size = record {
  sh_name = name;
  sh_type = type;
  sh_offset = offset;
  sh_size = size;
}

abbrev dyn : ℕ → ℕ → Dyn
dyn tag val = record { d_tag = tag; d_val = val }

-- Version 7 with arguments in floating-point registers.
abbrev attributes : Bytes
attributes =
    b'A' ∷ 20 ∷ 0 ∷ 0 ∷ 0 ∷ (codes "aeabi" ++ (0 ∷ 1 ∷ 9 ∷ 0 ∷ 0 ∷ 0 ∷ 6 ∷ 10 ∷ 28 ∷ 1 ∷ 0 ∷ []))

abbrev small : ElfFile
small = record {
  e_data = 1;
  e_type = 3;
  e_machine = 40;
  e_flags = 0;
  e_shstrndx = 1;
  shstrndx = 1;
  is_64bit = false;
  sections =
      section_header 1 1 64 8
      ∷ section_header 2 3 128 32
      ∷ section_header 3 0x70000003 256 20
      ∷ section_header 4 6 300 48
      ∷ [];
  strptr = small_strptr;
  section_at = λ offset. if offset == 128 then 2 else 0;
  dynamic_at = λ offset. dyn 1 1 ∷ dyn 14 2 ∷ [];
  note_at = λ offset. none;
  data_at = λ offset. attributes;
}

-- The same file without its table of dynamic strings.
abbrev bare : ElfFile
bare = record small { sections = section_header 4 6 300 48 ∷ [] }

small_dynstrtab : get_elf_dynstrtab small ≡ 2
unfolding get_elf_dynstrtab find_elf_section_header matches starts_with
small_dynstrtab = refl

-- With the table of section names the attributes are found.
small_attributes : get_elf_arm_arch 9 small Endianness.little 1 ≡ done AoscArch.armv7hf
unfolding get_elf_arm_arch find_elf_section_header matches starts_with sections_loop section_round
    read_le32 attributes_loop attribute_round decode_uleb128 uleb_loop shift_int
    is_null_terminated_string attribute settle
small_attributes = refl

-- Four bytes of length 0, and another vendor.
sections_loop_spins_example :
    sections_loop 1000 Endianness.little
      (b'A' ∷ 0 ∷ 0 ∷ 0 ∷ 0 ∷ codes "other")
      10
      (record { pos = 1; ret = AoscArch.none; hard_float = false })
    ≡ spin
unfolding starts_with read_le32
sections_loop_spins_example =
    sections_loop_spins 1000 Endianness.little (b'A' ∷ 0 ∷ 0 ∷ 0 ∷ 0 ∷ codes "other") 10
      (record { pos = 1; ret = AoscArch.none; hard_float = false }) (omega arith) refl refl

not_the_name :
    (w n : Bytes)
    → starts_with (codes ".ARM.attributes") w ≡ false
    → some w ≡ some n
    → starts_with (codes ".ARM.attributes") n ≡ false
not_the_name w n h e = cc

no_such_name :
    (i : ℕ) (n : Bytes)
    → small.strptr (get_elf_dynstrtab small) i ≡ some n
    → starts_with (codes ".ARM.attributes") n ≡ false
unfolding get_elf_dynstrtab find_elf_section_header matches starts_with
no_such_name i n h = elim (Bool-cases (i == 1)) [
  | inl e ↦ not_the_name (codes "libc.so.6") n refl (rw e at h)
  | inr e ↦ elim (Bool-cases (i == 2)) [
    | inl f ↦ not_the_name (codes "libz.so.1") n refl (rw (e, f) at h)
    | inr f ↦ absurd (cc (let h' : none ≡ some n = rw (e, f) at h in h'))
  ]
]

-- An architecture that is told by the machine alone.
abbrev other_machine : ElfFile
other_machine = record small { e_machine = 62; is_64bit = true }

other_machine_arch : arch_of 9 other_machine ≡ done AoscArch.amd64
unfolding arch_of detect_architecture
other_machine_arch = refl

arch_of-fits_example :
    (fits AoscArch.amd64 62 (endian_of 1) true ≡ true)
    × (((AoscArch.arm64 ≡ AoscArch.amd64) ⊎ (fits AoscArch.arm64 62 (endian_of 1) true ≡ false))
        ⊎ ((62 ≡ em_arm) ⊎ (62 ≡ em_mips)))
arch_of-fits_example =
    arch_of-fits 9 other_machine AoscArch.amd64 AoscArch.arm64 other_machine_arch (λ e. cc)

-- A file with one section, `.text`, is taken for one with debug information.
is_debug_info_present-names_example :
    is_debug_info_present (record small { sections = section_header 1 1 64 8 ∷ [] })
    ≡ any_name taken_for_debug (codes ".text" ∷ [])
is_debug_info_present-names_example =
    is_debug_info_present-names {elf = record small { sections = section_header 1 1 64 8 ∷ [] }}
      (cons refl nil)

unhex-hex_example :
    (unhex (hex (0xde ∷ 0x0f ∷ [])) ≡ 0xde ∷ 0x0f ∷ [])
    × (all is_hexadecimal (hex (0xde ∷ 0x0f ∷ [])) ≡ true)
    × (length (hex (0xde ∷ 0x0f ∷ [])) ≡ 4)
unhex-hex_example = unhex-hex (0xde ∷ 0x0f ∷ []) refl

get_elf_needed-texts_example :
    get_elf_needed small 2 ≡ texts (small_strptr 2) (needed_indices small small.sections)
get_elf_needed-texts_example = get_elf_needed-texts small 2

-- A kernel object: a file that can be relocated, with a note of Linux.
abbrev object : ElfFile
object = record small {
  e_type = 1;
  e_machine = 62;
  sections = section_header 5 7 64 8 ∷ [];
  strptr = λ table i. if i == 5 then some (codes ".note.Linux") else none;
}

abbrev zeros : ℕ → Bytes
zeros zero = []
zeros (suc n) = 0 ∷ zeros n

abbrev header : Bytes
header = 0x7f ∷ 0x45 ∷ 0x4c ∷ 0x46 ∷ zeros 48

abbrev object_result : ElfParseResult
object_result = record no_result { bin_type = kernel_object; arch = AoscArch.amd64 }

object_identified : identify_binary_data 9 header object ≡ done object_result
unfolding identify_binary_data equal identify_elf identify_sections get_elf_soname soname_index
    type_of maybe_kernel_object find_elf_section_header matches starts_with arch_of get_elf_build_id
    detect_architecture debug_info_in
object_identified = refl
