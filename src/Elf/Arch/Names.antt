-- ===== src/Elf/Arch/Names.antt =====
-- The names of the architectures and their suffixes.
use autobuild.Base.{
  true, List, [], ◌∷◌, ◌≡◌, ◌≢◌, refl, sym, ◌∙◌, ◌↔◌, Bool-cases, ◌⊎◌, inl, inr, arith,
  if◌then◌else◌, Bytes, codes, equal, equal_iff, contains,
}
use autobuild.Elf.Arch.{AoscArch, parse_aosc_arch_name, aosc_arch_to_debian_arch_suffix}

-- The name that autobuild gives an architecture.
abbrev pub arch_name : AoscArch → Bytes
arch_name AoscArch.none = []
arch_name AoscArch.alpha = codes "alpha"
arch_name AoscArch.amd64 = codes "amd64"
arch_name AoscArch.arm64 = codes "arm64"
arch_name AoscArch.armv4 = codes "armv4"
arch_name AoscArch.armv6hf = codes "armv6hf"
arch_name AoscArch.armv7hf = codes "armv7hf"
arch_name AoscArch.i486 = codes "i486"
arch_name AoscArch.ia64 = codes "ia64"
arch_name AoscArch.loongarch64 = codes "loongarch64"
arch_name AoscArch.loongson2f = codes "loongson2f"
arch_name AoscArch.loongson3 = codes "loongson3"
arch_name AoscArch.mips64r6el = codes "mips64r6el"
arch_name AoscArch.powerpc = codes "powerpc"
arch_name AoscArch.ppc64 = codes "ppc64"
arch_name AoscArch.ppc64el = codes "ppc64el"
arch_name AoscArch.riscv64 = codes "riscv64"
arch_name AoscArch.sparc64 = codes "sparc64"

parse-arch_name : (a : AoscArch) → parse_aosc_arch_name (arch_name a) ≡ a
unfolding parse_aosc_arch_name equal
parse-arch_name AoscArch.none = refl
parse-arch_name _ = refl

arch_name-parse :
    (name : Bytes)
    → (parse_aosc_arch_name name ≡ AoscArch.none) ⊎ (arch_name (parse_aosc_arch_name name) ≡ name)
unfolding parse_aosc_arch_name
arch_name-parse name = ground (
  arith,
  equal_iff name (codes "alpha"),
  equal_iff name (codes "amd64"),
  equal_iff name (codes "arm64"),
  equal_iff name (codes "armv4"),
  equal_iff name (codes "armv6hf"),
  equal_iff name (codes "armv7hf"),
  equal_iff name (codes "i486"),
  equal_iff name (codes "ia64"),
  equal_iff name (codes "loongarch64"),
  equal_iff name (codes "loongson2f"),
  equal_iff name (codes "loongson3"),
  equal_iff name (codes "mips64r6el"),
  equal_iff name (codes "powerpc"),
  equal_iff name (codes "ppc64"),
  equal_iff name (codes "ppc64el"),
  equal_iff name (codes "riscv64"),
  equal_iff name (codes "sparc64"),
)

-- The seventeen names are read back, each as its own architecture, and a name that is not among
-- them is read as no architecture.
pub parse_aosc_arch_name_lem :
    (name : Bytes) (a : AoscArch)
    → a ≢ AoscArch.none
    → (parse_aosc_arch_name name ≡ a) ↔ (name ≡ arch_name a)
parse_aosc_arch_name_lem name a h =
    (λ e. ground (arith, arch_name-parse name), λ e. rw e (parse-arch_name a))

-- The architectures that share a suffix in Debian.
abbrev pub family : AoscArch → AoscArch
family AoscArch.armv7hf = AoscArch.armv6hf
family AoscArch.loongson3 = AoscArch.loongson2f
family a = a

-- The architecture that a suffix stands for, up to its family.
abbrev owner : Bytes → AoscArch
owner s =
    if equal s (codes "armel")
    then AoscArch.armv4
    else if equal s (codes "armhf")
    then AoscArch.armv6hf
    else if equal s (codes "i386")
    then AoscArch.i486
    else if equal s (codes "loong64")
    then AoscArch.loongarch64
    else if equal s (codes "mips64el")
    then AoscArch.loongson2f
    else parse_aosc_arch_name s

abbrev OwnedBy : AoscArch → List Bytes → Type 0
OwnedBy a [] = Unit {0}
OwnedBy a (s ∷ ss) = (owner s ≡ a) × OwnedBy a ss

suffix-OwnedBy : (a : AoscArch) → OwnedBy (family a) (aosc_arch_to_debian_arch_suffix a)
unfolding aosc_arch_to_debian_arch_suffix parse_aosc_arch_name equal
suffix-OwnedBy AoscArch.none = tt
suffix-OwnedBy AoscArch.loongarch64 = (refl, (refl, tt))
suffix-OwnedBy _ = (refl, tt)

contains-OwnedBy :
    (a : AoscArch) (t : List Bytes) (s : Bytes) → OwnedBy a t → contains t s ≡ true → owner s ≡ a
unfolding contains
contains-OwnedBy a [] s o h = cc
contains-OwnedBy a (x ∷ t) s o h = elim (Bool-cases (equal x s)) [
  | inl e ↦ rw (← (equal_iff x s).0 e) o.0
  | inr e ↦ contains-OwnedBy a t s o.1 (rw e at h)
]

-- Packages of two architectures are told apart by their suffix, but for the two hard-float ARM
-- architectures and the two Loongson ones.
pub debian_arch_suffix-distinct :
    (a b : AoscArch) (s : Bytes)
    → contains (aosc_arch_to_debian_arch_suffix a) s ≡ true
    → contains (aosc_arch_to_debian_arch_suffix b) s ≡ true
    → family a ≡ family b
debian_arch_suffix-distinct a b s h k =
    sym (contains-OwnedBy (family a) _ s (suffix-OwnedBy a) h)
    ∙ contains-OwnedBy (family b) _ s (suffix-OwnedBy b) k
