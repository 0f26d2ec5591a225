-- ===== src/Elf/Arch/Detect.antt =====
-- What the header of a file says of the architecture that is reported for it.
use autobuild.Base.{ℕ, Bool, true, false, ◌&&◌, ◌≡◌, ◌≢◌, arith, ◌==◌}
use autobuild.Elf.Arch.{
  AoscArch, Endianness, detect_mips, detect_architecture, on_endian, em_386, em_mips, em_ppc,
  em_ppc64, em_arm, em_sparcv9, em_ia_64, em_x86_64, em_aarch64, em_riscv, em_loongarch, em_alpha,
}

-- What is asked of the header of the files of an architecture: the machine, for LoongArch and RISC-V
-- also the class, and for MIPS and PowerPC also the byte order. For the others neither the class nor
-- the byte order is asked for, so that x32 counts as amd64, and big-endian AArch64 as arm64.
abbrev pub fits : AoscArch → ℕ → Endianness → Bool → Bool
fits AoscArch.none m e w = false
fits AoscArch.alpha m e w = m == em_alpha
fits AoscArch.amd64 m e w = m == em_x86_64
fits AoscArch.arm64 m e w = m == em_aarch64
fits AoscArch.armv4 m e w = m == em_arm
fits AoscArch.armv6hf m e w = m == em_arm
fits AoscArch.armv7hf m e w = m == em_arm
fits AoscArch.i486 m e w = m == em_386
fits AoscArch.ia64 m e w = m == em_ia_64
fits AoscArch.loongarch64 m e w = m == em_loongarch && w
fits AoscArch.loongson2f m e w = m == em_mips && on_endian e true false
fits AoscArch.loongson3 m e w = m == em_mips && on_endian e true false
fits AoscArch.mips64r6el m e w = m == em_mips && on_endian e true false
fits AoscArch.powerpc m e w = m == em_ppc && on_endian e false true
fits AoscArch.ppc64 m e w = m == em_ppc64 && on_endian e false true
fits AoscArch.ppc64el m e w = m == em_ppc64 && on_endian e true false
fits AoscArch.riscv64 m e w = m == em_riscv && w
fits AoscArch.sparc64 m e w = m == em_sparcv9

-- An architecture reported for a file fits its header; on ARM that is so
-- if it is so for what the attributes gave.
pub detect_architecture-fits :
    (m f : ℕ) (e : Endianness) (arm : AoscArch) (w : Bool)
    → (m ≡ em_arm → arm ≢ AoscArch.none → fits arm m e w ≡ true)
    → detect_architecture m f e arm w ≢ AoscArch.none
    → fits (detect_architecture m f e arm w) m e w ≡ true
unfolding detect_architecture detect_mips
detect_architecture-fits m f e arm w a h = ground arith

-- Outside ARM and MIPS, where more than the header decides, a file that fits an architecture is
-- reported as that architecture.
pub detect_architecture_complete :
    (a : AoscArch) (m f : ℕ) (e : Endianness) (arm : AoscArch) (w : Bool)
    → m ≢ em_arm
    → m ≢ em_mips
    → fits a m e w ≡ true
    → detect_architecture m f e arm w ≡ a
unfolding detect_architecture
detect_architecture_complete AoscArch.none m f e arm w x y h = ground arith
detect_architecture_complete _ m f e arm w x y h = ground arith
