-- ===== src/Elf/Arch.antt =====
-- The architectures: their names, their suffixes in Debian, and how the header of an ELF file
-- tells them.
pub mod Names
pub mod Detect
use Prim.Native.Nat.{bit_and}
use autobuild.Base.{ℕ, Bool, true, List, [], ◌∷◌, ◌==◌, if◌then◌else◌, Bytes, codes, equal}

pub data AoscArch : Type 0 where
  none alpha amd64 arm64 armv4 armv6hf armv7hf i486 ia64 loongarch64 loongson2f : AoscArch
  loongson3 mips64r6el powerpc ppc64 ppc64el riscv64 sparc64 : AoscArch

unfoldable pub parse_aosc_arch_name : Bytes → AoscArch
parse_aosc_arch_name name =
    if equal name (codes "alpha")
    then alpha
    else if equal name (codes "amd64")
    then amd64
    else if equal name (codes "arm64")
    then arm64
    else if equal name (codes "armv4")
    then armv4
    else if equal name (codes "armv6hf")
    then armv6hf
    else if equal name (codes "armv7hf")
    then armv7hf
    else if equal name (codes "i486")
    then i486
    else if equal name (codes "ia64")
    then ia64
    else if equal name (codes "loongarch64")
    then loongarch64
    else if equal name (codes "loongson2f")
    then loongson2f
    else if equal name (codes "loongson3")
    then loongson3
    else if equal name (codes "mips64r6el")
    then mips64r6el
    else if equal name (codes "powerpc")
    then powerpc
    else if equal name (codes "ppc64")
    then ppc64
    else if equal name (codes "ppc64el")
    then ppc64el
    else if equal name (codes "riscv64")
    then riscv64
    else if equal name (codes "sparc64")
    then sparc64
    else none

-- The set of suffixes.
unfoldable pub aosc_arch_to_debian_arch_suffix : AoscArch → List Bytes
aosc_arch_to_debian_arch_suffix alpha = codes "alpha" ∷ []
aosc_arch_to_debian_arch_suffix amd64 = codes "amd64" ∷ []
aosc_arch_to_debian_arch_suffix arm64 = codes "arm64" ∷ []
aosc_arch_to_debian_arch_suffix armv4 = codes "armel" ∷ []
aosc_arch_to_debian_arch_suffix armv6hf = codes "armhf" ∷ []
aosc_arch_to_debian_arch_suffix armv7hf = codes "armhf" ∷ []
aosc_arch_to_debian_arch_suffix i486 = codes "i386" ∷ []
aosc_arch_to_debian_arch_suffix ia64 = codes "ia64" ∷ []
aosc_arch_to_debian_arch_suffix loongarch64 = codes "loong64" ∷ codes "loongarch64" ∷ []
aosc_arch_to_debian_arch_suffix loongson2f = codes "mips64el" ∷ []
aosc_arch_to_debian_arch_suffix loongson3 = codes "mips64el" ∷ []
aosc_arch_to_debian_arch_suffix mips64r6el = codes "mips64r6el" ∷ []
aosc_arch_to_debian_arch_suffix powerpc = codes "powerpc" ∷ []
aosc_arch_to_debian_arch_suffix ppc64 = codes "ppc64" ∷ []
aosc_arch_to_debian_arch_suffix ppc64el = codes "ppc64el" ∷ []
aosc_arch_to_debian_arch_suffix riscv64 = codes "riscv64" ∷ []
aosc_arch_to_debian_arch_suffix sparc64 = codes "sparc64" ∷ []
aosc_arch_to_debian_arch_suffix none = []

pub data Endianness : Type 0 where
  little big : Endianness

-- The numbers of elf.h: `EM_…` for `e_machine`.
abbrev pub em_386 : ℕ
em_386 = 3

abbrev pub em_mips : ℕ
em_mips = 8

abbrev pub em_ppc : ℕ
em_ppc = 20

abbrev pub em_ppc64 : ℕ
em_ppc64 = 21

abbrev pub em_arm : ℕ
em_arm = 40

abbrev pub em_sparcv9 : ℕ
em_sparcv9 = 43

abbrev pub em_ia_64 : ℕ
em_ia_64 = 50

abbrev pub em_x86_64 : ℕ
em_x86_64 = 62

abbrev pub em_aarch64 : ℕ
em_aarch64 = 183

abbrev pub em_riscv : ℕ
em_riscv = 243

abbrev pub em_loongarch : ℕ
em_loongarch = 258

abbrev pub em_alpha : ℕ
em_alpha = 0x9026

-- The values that the source gives in its comments.
abbrev pub elf_flags_loongson2f : ℕ
elf_flags_loongson2f = 0x20000000

abbrev pub elf_flags_loongson3 : ℕ
elf_flags_loongson3 = 0x80a20000

abbrev pub elf_flags_mips64r6el : ℕ
elf_flags_mips64r6el = 0xa0000400

-- `(e_flags & mask) == mask`.
abbrev pub has_flags : ℕ → ℕ → Bool
has_flags e_flags mask = bit_and e_flags mask == mask

-- `case EM_MIPS` for a little-endian file.
unfoldable pub detect_mips : ℕ → AoscArch
detect_mips e_flags =
    if has_flags e_flags elf_flags_mips64r6el
    then mips64r6el
    else if has_flags e_flags elf_flags_loongson3
    then loongson3
    else if has_flags e_flags elf_flags_loongson2f
    then loongson2f
    else none

abbrev pub on_endian {ℓ} : {A : Type ℓ} → Endianness → A → A → A
on_endian little x y = x
on_endian big x y = y

-- `arm` is the result of `get_elf_arm_arch`, which the switch calls for `EM_ARM` only.
unfoldable pub detect_architecture : ℕ → ℕ → Endianness → AoscArch → Bool → AoscArch
detect_architecture e_machine e_flags endian arm is_64bit =
    if e_machine == em_x86_64
    then amd64
    else if e_machine == em_aarch64
    then arm64
    else if e_machine == em_arm
    then arm
    else if e_machine == em_386
    then i486
    else if e_machine == em_loongarch
    then if is_64bit then loongarch64 else none
    else if e_machine == em_mips
    then on_endian endian (detect_mips e_flags) none
    else if e_machine == em_ppc
    then on_endian endian none powerpc
    else if e_machine == em_ppc64
    then on_endian endian ppc64el ppc64
    else if e_machine == em_riscv
    then if is_64bit then riscv64 else none
    else if e_machine == em_sparcv9
    then sparc64
    else if e_machine == em_ia_64
    then ia64
    else if e_machine == em_alpha
    then AoscArch.alpha
    else none
