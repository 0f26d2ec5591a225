-- ===== src/Elf/Sections.antt =====
-- The walks over the sections of an ELF file. The file itself is read by libelf, which is not
-- part of this repository: `ElfFile` holds its answers.
pub mod BuildId
pub mod Debug
pub mod Dynamic
use Prim.Native.Nat.{bit_and}
use autobuild.Base.{
  ℕ, ◌+◌, ◌/◌, ◌%◌, ◌^◌, Bool, true, false, not, ◌&&◌, ◌||◌, List, [], ◌∷◌, ◌++◌, ltb, ◌==◌,
  if◌then◌else◌, Option, none, some, ◌>>=◌, Bytes, codes, length, starts_with, get_elem?,
}

-- The fields of `GElf_Shdr` that the code reads.
pub record Shdr : Type 0 where
  pub sh_name : ℕ
  pub sh_type : ℕ
  pub sh_offset : ℕ
  pub sh_size : ℕ

pub record Dyn : Type 0 where
  pub d_tag : ℕ
  pub d_val : ℕ

pub record ElfFile : Type 0 where
  -- `gelf_getehdr`
  pub e_data : ℕ
  pub e_type : ℕ
  pub e_machine : ℕ
  pub e_flags : ℕ
  pub e_shstrndx : ℕ
  -- `elf_getshdrstrndx`, `gelf_getclass` and the `elf_nextscn` loop
  pub shstrndx : ℕ
  pub is_64bit : Bool
  pub sections : List Shdr
  -- `elf_strptr`: the text at an index of a string table, or a null pointer
  pub strptr : ℕ → ℕ → Option Bytes
  -- `elf_ndxscn` of `gelf_offscn`
  pub section_at : ℕ → ℕ
  -- the entries that `gelf_getdyn` gives for the section at an offset
  pub dynamic_at : ℕ → List Dyn
  -- the descriptor of the first note of the section at an offset
  pub note_at : ℕ → Option Bytes
  -- the bytes of `elf_getdata` for the section at an offset
  pub data_at : ℕ → Bytes

abbrev pub sht_strtab : ℕ
sht_strtab = 3

abbrev pub sht_dynamic : ℕ
sht_dynamic = 6

abbrev pub sht_note : ℕ
sht_note = 7

abbrev pub sht_arm_attributes : ℕ
sht_arm_attributes = 0x70000003

abbrev pub dt_needed : ℕ
dt_needed = 1

abbrev pub dt_soname : ℕ
dt_soname = 14

-- Whether a section has the type, and a name that begins with the one asked for.
unfoldable pub matches : ElfFile → ℕ → Bytes → ℕ → Shdr → Bool
matches elf strtab name type shdr =
    if not (shdr.sh_type == type)
    then false
    else elim (elf.strptr strtab shdr.sh_name) [ none ↦ false | some n ↦ starts_with name n ]

-- The first such section. `strtab` is the parameter `shstrndx`.
unfoldable pub find_elf_section_header : List Shdr → ElfFile → ℕ → Bytes → ℕ → Option Shdr
find_elf_section_header [] elf strtab name type = none
find_elf_section_header (s ∷ ss) elf strtab name type =
    if matches elf strtab name type s
    then some s
    else find_elf_section_header ss elf strtab name type

unfoldable pub get_elf_dynstrtab : ElfFile → ℕ
get_elf_dynstrtab elf =
    elim (find_elf_section_header elf.sections elf elf.shstrndx (codes ".dynstr") sht_strtab) [
      | none ↦ 0
      | some shdr ↦ elf.section_at shdr.sh_offset
    ]

-- The loop over the entries of one dynamic section, where the index is cast to `uint32_t`; `none`
-- is a null pointer made a string.
unfoldable pub needed_in : ElfFile → ℕ → List Dyn → List Bytes → Option (List Bytes)
needed_in elf dynstrtab [] needed = some needed
needed_in elf dynstrtab (d ∷ ds) needed = elim (d.d_tag == dt_needed) [
  | true ↦ do
    name ← elf.strptr dynstrtab (d.d_val % 2 ^ 32)
    needed_in elf dynstrtab ds (needed ++ name ∷ [])
  | false ↦ needed_in elf dynstrtab ds needed
]

unfoldable pub needed_of : ElfFile → ℕ → List Shdr → List Bytes → Option (List Bytes)
needed_of elf dynstrtab [] needed = some needed
needed_of elf dynstrtab (s ∷ ss) needed = elim (s.sh_type == sht_dynamic) [
  | true ↦ do
    needed' ← needed_in elf dynstrtab (elf.dynamic_at s.sh_offset) needed
    needed_of elf dynstrtab ss needed'
  | false ↦ needed_of elf dynstrtab ss needed
]

unfoldable pub get_elf_needed : ElfFile → ℕ → Option (List Bytes)
get_elf_needed elf dynstrtab =
    if dynstrtab == 0 then some [] else needed_of elf dynstrtab elf.sections []

-- The first `DT_SONAME` of one section: its index into the string table, cast to `uint32_t`.
unfoldable pub soname_in : List Dyn → Option ℕ
soname_in [] = none
soname_in (d ∷ ds) = if d.d_tag == dt_soname then some (d.d_val % 2 ^ 32) else soname_in ds

unfoldable pub soname_index : ElfFile → List Shdr → Option ℕ
soname_index elf [] = none
soname_index elf (s ∷ ss) =
    let rest = soname_index elf ss in
    if s.sh_type == sht_dynamic
    then elim (soname_in (elf.dynamic_at s.sh_offset)) [ none ↦ rest | some i ↦ some i ]
    else rest

-- The empty string stands for a file without a soname; `none` is a null pointer made a string.
unfoldable pub get_elf_soname : ElfFile → ℕ → Option Bytes
get_elf_soname elf dynstrtab = elim (soname_index elf elf.sections) [
  | none ↦ some []
  | some i ↦ elf.strptr dynstrtab i
]

-- `table[i]`.
abbrev pub hex_digits : Bytes
hex_digits = codes "0123456789abcdef"

unfoldable pub hex_digit : ℕ → ℕ
hex_digit i = elim (get_elem? hex_digits i) [ none ↦ 0 | some d ↦ d ]

unfoldable pub hex : Bytes → Bytes
hex [] = []
hex (v ∷ vs) = hex_digit (bit_and v 0xf0 / 16) ∷ hex_digit (bit_and v 0x0f) ∷ hex vs

unfoldable pub get_elf_build_id : ElfFile → Bytes
get_elf_build_id elf =
    elim (find_elf_section_header elf.sections elf elf.shstrndx (codes ".note.gnu.build-id")
      sht_note) [
        | none ↦ []
        | some shdr ↦ elim (elf.note_at shdr.sh_offset) [ none ↦ [] | some desc ↦ hex desc ]
      ]

unfoldable pub maybe_kernel_object : ElfFile → Bool
maybe_kernel_object elf =
    elim (find_elf_section_header elf.sections elf elf.shstrndx (codes ".note.Linux") sht_note) [
      | none ↦ false
      | some _ ↦ true
    ]

unfoldable pub debug_info_in : ElfFile → List Shdr → Bool
debug_info_in elf [] = false
debug_info_in elf (s ∷ ss) =
    let rest = debug_info_in elf ss in
    elim (elf.strptr elf.shstrndx s.sh_name) [
      | none ↦ false
      | some n ↦
          if not (ltb (length n) 8) && not (starts_with (codes ".debug_") n) then rest else true
    ]

abbrev pub is_debug_info_present : ElfFile → Bool
is_debug_info_present elf = debug_info_in elf elf.sections
