-- ===== src/Elf/Identify/Reported.antt =====
-- What is reported for an ELF file.
use autobuild.Base.{
  ℕ, Bool, true, false, List, [], ◌∷◌, ◌≡◌, ◌≢◌, ◌⊎◌, ==_iff, inl, inr, refl, arith, ◌==◌, done,
  Bytes, codes, Bool-cases, none, some, Option-cases, Outcome-cases, starts_with,
}
use autobuild.Elf.Arch.{AoscArch, Endianness, detect_architecture, em_arm, em_mips}
use autobuild.Elf.Arch.Detect.{fits, detect_architecture-fits, detect_architecture_complete}
use autobuild.Elf.Arm.Progress.{arm_arch}
use autobuild.Elf.Arm.Result.{get_elf_arm_arch-arm}
use autobuild.Elf.Arm.{get_elf_arm_arch}
use autobuild.Elf.Sections.{
  Shdr, ElfFile, matches, find_elf_section_header, get_elf_dynstrtab, maybe_kernel_object,
  sht_arm_attributes,
}
use autobuild.Elf.Identify.{
  kernel_object, relocatable, ElfParseResult, type_of, endian_of, arch_of, identify_sections,
  identify_elf, identify_binary_data,
}

find_without_name :
    (ss : List Shdr) (elf : ElfFile) (strtab : ℕ) (name : Bytes) (type : ℕ)
    → ((i : ℕ) (n : Bytes) → elf.strptr strtab i ≡ some n → starts_with name n ≡ false)
    → find_elf_section_header ss elf strtab name type ≡ none
unfolding find_elf_section_header matches
find_without_name [] elf strtab name type h = refl
find_without_name (s ∷ ss) elf strtab name type h =
    elim (Option-cases (elf.strptr strtab s.sh_name)) [
      | inl e ↦ ground (arith, find_without_name ss elf strtab name type h)
      | inr (n, e) ↦ ground (arith, find_without_name ss elf strtab name type h, h s.sh_name n e)
    ]

-- Reading the attributes needs the table of section names. With the table of dynamic strings in
-- its place, which holds no such name, no ARM file has an architecture.
pub arch_of_arm :
    (fuel : ℕ) (elf : ElfFile)
    → elf.e_machine ≡ em_arm
    → ((i : ℕ) (n : Bytes)
        → elf.strptr (get_elf_dynstrtab elf) i ≡ some n
        → starts_with (codes ".ARM.attributes") n ≡ false)
    → arch_of fuel elf ≡ done AoscArch.none
unfolding arch_of get_elf_arm_arch detect_architecture
arch_of_arm fuel elf m h = ground (
  arith,
  find_without_name elf.sections elf (get_elf_dynstrtab elf) (codes ".ARM.attributes")
      sht_arm_attributes h,
)

arm_arch-fits :
    (a : AoscArch) (m : ℕ) (e : Endianness) (w : Bool)
    → arm_arch a ≡ true
    → m ≡ em_arm
    → a ≢ AoscArch.none
    → fits a m e w ≡ true
arm_arch-fits a m e w h k n = ground arith

-- What is reported fits the header.
reported-fits :
    (fuel : ℕ) (elf : ElfFile) (a : AoscArch)
    → arch_of fuel elf ≡ done a
    → a ≢ AoscArch.none
    → fits a elf.e_machine (endian_of elf.e_data) elf.is_64bit ≡ true
unfolding arch_of
reported-fits fuel elf a h n =
    let e = endian_of elf.e_data in
    elim (Bool-cases (elf.e_machine == em_arm)) [
      | inr other ↦ ground (
        arith,
        detect_architecture-fits elf.e_machine elf.e_flags e AoscArch.none elf.is_64bit
            (λ k x. absurd (x refl)),
      )
      | inl is_arm ↦ elim (Outcome-cases (get_elf_arm_arch fuel elf e (get_elf_dynstrtab elf))) [
        | inl g ↦ ground arith
        | inr (inl g) ↦ ground arith
        | inr (inr (arm, g)) ↦ ground (
          arith,
          detect_architecture-fits elf.e_machine elf.e_flags e arm elf.is_64bit (
              arm_arch-fits arm elf.e_machine e elf.is_64bit
                (get_elf_arm_arch-arm fuel elf e (get_elf_dynstrtab elf) arm g)),
        )
      ]
    ]

-- An architecture that is reported fits the header, and outside ARM and MIPS no other one does. To fit
-- asks for the machine, for LoongArch and RISC-V also for the class, and for MIPS and PowerPC also for
-- the byte order; the class and the byte order of other machines are not looked at.
pub arch_of-fits :
    (fuel : ℕ) (elf : ElfFile) (a b : AoscArch)
    → arch_of fuel elf ≡ done a
    → a ≢ AoscArch.none
    → (fits a elf.e_machine (endian_of elf.e_data) elf.is_64bit ≡ true)
      × (((b ≡ a) ⊎ (fits b elf.e_machine (endian_of elf.e_data) elf.is_64bit ≡ false))
          ⊎ ((elf.e_machine ≡ em_arm) ⊎ (elf.e_machine ≡ em_mips)))
unfolding arch_of
arch_of-fits fuel elf a b h n =
    let e = endian_of elf.e_data in
    (
      reported-fits fuel elf a h n,
      elim (Bool-cases (elf.e_machine == em_arm)) [
        | inl is_arm ↦ inr (inl ((==_iff elf.e_machine em_arm).0 is_arm))
        | inr not_arm ↦ elim (Bool-cases (elf.e_machine == em_mips)) [
          | inl is_mips ↦ inr (inr ((==_iff elf.e_machine em_mips).0 is_mips))
          | inr not_mips ↦ elim (Bool-cases (fits b elf.e_machine e elf.is_64bit)) [
            | inr misfit ↦ inl (inr misfit)
            | inl fit ↦
                let found =
                  detect_architecture_complete b elf.e_machine elf.e_flags e AoscArch.none
                    elf.is_64bit (λ same. ground (arith, same)) (λ same. ground (arith, same))
                    fit in
                inl (inl (ground (arith, found, h, not_arm)))
          ]
        ]
      ],
    )

-- A file is reported as a kernel object if it is an ELF file that can be relocated and has a
-- section named `.note.Linux`, and then it needs no libraries.
pub identify_binary_data_kernel :
    (fuel : ℕ) (bytes : Bytes) (elf : ElfFile) (r : ElfParseResult)
    → identify_binary_data fuel bytes elf ≡ done r
    → r.bin_type ≡ kernel_object
    → (type_of elf.e_type ≡ relocatable) × (maybe_kernel_object elf ≡ true) × (r.needed_libs ≡ [])
unfolding identify_binary_data identify_elf identify_sections type_of
identify_binary_data_kernel fuel bytes elf r h k = ground arith
