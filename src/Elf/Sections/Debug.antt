-- ===== src/Elf/Sections/Debug.antt =====
-- What counts as a section with debug information.
use autobuild.Base.{
  Bool, false, ◌||◌, List, [], ◌∷◌, ◌≡◌, refl, arith, ltb, some, Bytes, codes, length, starts_with,
}
use autobuild.Elf.Sections.{Shdr, ElfFile, debug_info_in, is_debug_info_present}

-- Every section has a name, and these are the names.
pub data HasNames (elf : ElfFile) : List Shdr → List Bytes → Type 0 where
  nil : HasNames elf [] []
  cons :
      {s : Shdr} {ss : List Shdr} {n : Bytes} {ns : List Bytes}
      → elf.strptr elf.shstrndx s.sh_name ≡ some n
      → HasNames elf ss ns
      → HasNames elf (s ∷ ss) (n ∷ ns)

abbrev pub any_name : (Bytes → Bool) → List Bytes → Bool
any_name p [] = false
any_name p (n ∷ ns) = p n || any_name p ns

-- A name that the code takes for that of a debug section.
abbrev pub taken_for_debug : Bytes → Bool
taken_for_debug n = ltb (length n) 8 || starts_with (codes ".debug_") n

debug_info_in-names :
    {elf : ElfFile} {ss : List Shdr} {ns : List Bytes}
    → HasNames elf ss ns
    → debug_info_in elf ss ≡ any_name taken_for_debug ns
unfolding debug_info_in
debug_info_in-names nil = refl
debug_info_in-names (cons {n} h t) = ground (arith, debug_info_in-names t)

-- In a file whose sections all have names, debug information is reported if one of them begins
-- with `.debug_`, or is shorter than eight characters, as `.text` and `.bss` are, and only then.
pub is_debug_info_present-names :
    {elf : ElfFile} {ns : List Bytes}
    → HasNames elf elf.sections ns
    → is_debug_info_present elf ≡ any_name taken_for_debug ns
is_debug_info_present-names h = debug_info_in-names h
