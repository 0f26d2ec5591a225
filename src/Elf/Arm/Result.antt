-- ===== src/Elf/Arm/Result.antt =====
-- What the walk over the attributes comes to.
use autobuild.Base.{
  ℕ, zero, suc, ◌+◌, ◌<◌, Bool, true, false, ◌≡◌, inl, inr, refl, arith, ltb, Bool-cases, some,
  Option-cases, Outcome-cases, done, spin, Bytes, codes,
}
use autobuild.Elf.Arch.{AoscArch, Endianness, on_endian}
use autobuild.Elf.Sections.{ElfFile, find_elf_section_header, sht_arm_attributes}
use autobuild.Elf.Arm.Progress.{arm_arch, attributes_loop-Ends}
use autobuild.Elf.Arm.{
  vendor_at, read_le32, read_be32, Scan, Exit, loop_end, returns_none, attributes_loop,
  section_round, passes, reads, gives_up, sections_loop, settle, exit_arch, get_elf_arm_arch,
}

abbrev exit_is_arm : Exit → Bool
exit_is_arm (loop_end s) = arm_arch s.ret
exit_is_arm returns_none = true

-- The outer loop, whatever fuel it has, reports an architecture of ARM or none.
sections_loop-arm :
    (f : ℕ) (endian : Endianness) (start : Bytes) (size : ℕ) (s : Scan) (e : Exit)
    → arm_arch s.ret ≡ true
    → sections_loop f endian start size s ≡ done e
    → exit_is_arm e ≡ true
unfolding sections_loop
sections_loop-arm zero endian start size s e a h = cc
sections_loop-arm (suc f) endian start size s e a h = elim (Bool-cases (ltb s.pos size)) [
  | inr x ↦ ground arith
  | inl x ↦ elim (Option-cases (section_round endian start s.pos)) [
    | inl g ↦ ground arith
    | inr (passes p, g) ↦
        sections_loop-arm f endian start size (record s { pos = p }) e a (ground arith)
    | inr (gives_up, g) ↦ ground arith
    | inr (reads p end, g) ↦
        let ends =
          attributes_loop-Ends (suc end) start end (record s { pos = p }) (omega arith)
            (omega arith) a in
        elim (Outcome-cases (attributes_loop (suc end) start end (record s { pos = p }))) [
          | inl k ↦ ground arith
          | inr (inl k) ↦ absurd (ends.never_spins k)
          | inr (inr (returns_none, k)) ↦ ground arith
          | inr (inr (loop_end t, k)) ↦
              sections_loop-arm f endian start size t e (ends.keeps_arm t k) (ground arith)
        ]
  ]
]

settle-arm : (s : Scan) → arm_arch s.ret ≡ true → arm_arch (settle s) ≡ true
unfolding settle
settle-arm s a = ground arith

exit_arch-arm : (e : Exit) → exit_is_arm e ≡ true → arm_arch (exit_arch e) ≡ true
exit_arch-arm (loop_end s) h = settle-arm s h
exit_arch-arm returns_none h = refl

-- What is reported for an ARM file is an architecture of ARM, or none.
pub get_elf_arm_arch-arm :
    (fuel : ℕ) (elf : ElfFile) (endian : Endianness) (strtab : ℕ) (a : AoscArch)
    → get_elf_arm_arch fuel elf endian strtab ≡ done a
    → arm_arch a ≡ true
unfolding get_elf_arm_arch
get_elf_arm_arch-arm fuel elf endian strtab a h =
    elim (Option-cases (
      find_elf_section_header elf.sections elf strtab (codes ".ARM.attributes")
        sht_arm_attributes)) [
          | inl f ↦ ground arith
          | inr (shdr, f) ↦
              let start = elf.data_at shdr.sh_offset in
              let scan : Scan = record { pos = 1; ret = AoscArch.none; hard_float = false } in
              elim (Outcome-cases (sections_loop fuel endian start shdr.sh_size scan)) [
                | inl g ↦ ground arith
                | inr (inl g) ↦ ground arith
                | inr (inr (e, g)) ↦ ground (
                  arith,
                  exit_arch-arm e (sections_loop-arm fuel endian start shdr.sh_size scan e refl g),
                )
              ]
        ]

passes_itself :
    (endian : Endianness) (start : Bytes) (pos : ℕ)
    → on_endian endian (read_le32 start pos) (read_be32 start pos) ≡ some 0
    → vendor_at start (pos + 4) ≡ some false
    → section_round endian start pos ≡ some (passes pos)
unfolding section_round
passes_itself endian start pos z v = ground arith

-- A section of length 0 that is not of the vendor `aeabi` is passed over for ever: whatever the
-- fuel, the outer loop does not end.
pub sections_loop_spins :
    (f : ℕ) (endian : Endianness) (start : Bytes) (size : ℕ) (s : Scan)
    → s.pos < size
    → on_endian endian (read_le32 start s.pos) (read_be32 start s.pos) ≡ some 0
    → vendor_at start (s.pos + 4) ≡ some false
    → sections_loop f endian start size s ≡ spin
unfolding sections_loop
sections_loop_spins zero endian start size s l z v = refl
sections_loop_spins (suc f) endian start size s l z v =
    ground
      (arith, passes_itself endian start s.pos z v, sections_loop_spins f endian start size s l z v)
