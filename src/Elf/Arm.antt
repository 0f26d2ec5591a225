-- ===== src/Elf/Arm.antt =====
-- The attributes of an ARM file, native/abnativeelf.cpp. A read past the buffer is a fault. The
-- host is little-endian, so `le64toh` and `le32toh` change nothing.
pub mod Uleb
pub mod Progress
pub mod Result
use Prim.Native.Nat.{bit_and, bit_or}
use autobuild.Base.{
  ℕ, zero, suc, ◌+◌, ◌-◌, ◌*◌, ◌%◌, ◌^◌, Bool, true, false, not, ◌&&◌, ◌||◌, List, [], ◌∷◌, ltb,
  leb, ◌==◌, if◌then◌else◌, Option, none, some, ◌>>=◌, Outcome, done, fault, spin, then_do,
  or_fault, Bytes, codes, length, get_elem?, drop, starts_with, find_char,
}
use autobuild.Elf.Arch.{AoscArch, Endianness, on_endian}
use autobuild.Elf.Sections.{ElfFile, Shdr, find_elf_section_header, sht_arm_attributes}

-- `x << shift` on a 32-bit `int`, made a `uint64_t`; undefined from the width on.
unfoldable pub shift_int : ℕ → ℕ → Outcome ℕ
shift_int x shift =
    let w = (x * 2 ^ shift) % 2 ^ 32 in
    if ltb shift 32 then done (if ltb w (2 ^ 31) then w else w + (2 ^ 64 - 2 ^ 32)) else fault

-- The loop of `decode_uleb128`; the first argument is `pos_max - pos`.
unfoldable pub uleb_loop : ℕ → Bytes → ℕ → ℕ → ℕ → Outcome (ℕ × ℕ)
uleb_loop zero start pos shift ret = done (ret, pos)
uleb_loop (suc n) start pos shift ret = then_do (or_fault (get_elem? start pos)) λ byte.
    then_do (shift_int (bit_and byte 0x7f) shift) λ bits.
      then_do (or_fault (get_elem? start (pos + 1))) λ next. elim (bit_and next 0x80 == 0) [
        | true ↦ done (bit_or ret bits, pos + 1)
        | false ↦ uleb_loop n start (pos + 1) ((shift + 7) % 256) (bit_or ret bits)
      ]

-- The value, and the new `pos`.
unfoldable pub decode_uleb128 : Bytes → ℕ → ℕ → Outcome (ℕ × ℕ)
decode_uleb128 start pos_max pos = uleb_loop (pos_max - pos) start pos 0 0

unfoldable pub is_null_terminated_string : ℕ → Bool
is_null_terminated_string tag = tag == 4 || tag == 5 || tag == 67

-- The locals of `get_elf_arm_arch` that its loops change.
pub record Scan : Type 0 where
  pub pos : ℕ
  pub ret : AoscArch
  pub hard_float : Bool

-- A loop ends, or the function returns `AOSCArch::NONE`.
pub data Exit : Type 0 where
  loop_end : Scan → Exit
  returns_none : Exit

-- The `switch` on the tag; `none` is the early return.
unfoldable pub attribute : ℕ → ℕ → Scan → Option Scan
attribute tag value s =
    if tag == 6
    then if value == 1
      then some (record s { ret = AoscArch.armv4 })
      else if value == 6
      then some (record s { ret = AoscArch.armv6hf })
      else if value == 10
      then some (record s { ret = AoscArch.armv7hf })
      else none
    else if tag == 28
    then some (if value == 1 then record s { hard_float = true } else s)
    else some s

-- What a round of the inner loop comes to.
pub data Turn : Type 0 where
  goes_on : Scan → Turn
  stops : Turn

unfoldable pub attribute_round : Bytes → ℕ → Scan → Outcome Turn
attribute_round start attributes_end s =
    then_do (decode_uleb128 start attributes_end s.pos) λ (tag, p).
      elim (is_null_terminated_string tag) [
        | true ↦ then_do (or_fault (find_char 0 (drop p start))) λ val_len.
            let p' = p + (val_len + 1) in
            done (if ltb attributes_end p' then stops else goes_on (record s { pos = p' }))
        | false ↦ then_do (decode_uleb128 start attributes_end p) λ (value, p').
            done (elim (attribute tag value (record s { pos = p' })) [
              | none ↦ stops
              | some s' ↦ goes_on s'
            ])
      ]

-- The inner loop, up to `attributes_end`.
unfoldable pub attributes_loop : ℕ → Bytes → ℕ → Scan → Outcome Exit
attributes_loop zero start attributes_end s = spin
attributes_loop (suc f) start attributes_end s = elim (ltb s.pos attributes_end) [
  | false ↦ done (loop_end s)
  | true ↦ elim (attribute_round start attributes_end s) [
    | fault ↦ fault
    | spin ↦ spin
    | done stops ↦ done returns_none
    | done (goes_on s') ↦ attributes_loop f start attributes_end s'
  ]
]

-- A `uint32_t` read at a position, lowest byte first and highest byte first.
unfoldable pub read_le32 : Bytes → ℕ → Option ℕ
read_le32 start pos = do
  a ← get_elem? start pos
  b ← get_elem? start (pos + 1)
  c ← get_elem? start (pos + 2)
  d ← get_elem? start (pos + 3)
  some (a + 256 * b + 65536 * c + 16777216 * d)

unfoldable pub read_be32 : Bytes → ℕ → Option ℕ
read_be32 start pos = do
  a ← get_elem? start pos
  b ← get_elem? start (pos + 1)
  c ← get_elem? start (pos + 2)
  d ← get_elem? start (pos + 3)
  some (d + 256 * c + 65536 * b + 16777216 * a)

abbrev pub vendor_name : Bytes
vendor_name = codes "aeabi"

-- The bytes that the vendor's name is compared with.
abbrev pub vendor_at : Bytes → ℕ → Option Bool
vendor_at start pos =
    let here = drop pos start in
    if ltb (length here) (length vendor_name) then none else some (starts_with vendor_name here)

-- What a round of the outer loop comes to before it reads attributes.
pub data Round : Type 0 where
  -- the section is passed over: the next round starts at its end
  passes : ℕ → Round
  -- the attributes lie between two positions
  reads : ℕ → ℕ → Round
  gives_up : Round

unfoldable pub section_round : Endianness → Bytes → ℕ → Option Round
section_round endian start pos = do
  section_length ← on_endian endian (read_le32 start pos) (read_be32 start pos)
  let section_end = pos + section_length
  vendor ← vendor_at start (pos + 4)
  let at_tag = pos + 4 + (length vendor_name + 1)
  elim vendor [
    | false ↦ some (passes section_end)
    | true ↦ do
      tag ← get_elem? start at_tag
      elim (tag == 1) [
        | false ↦ some (passes section_end)
        | true ↦ do
          attributes_length ← read_le32 start (at_tag + 1)
          some (
              if ltb section_end (at_tag + attributes_length)
              then gives_up
              else reads (at_tag + 5) (at_tag + attributes_length))
      ]
  ]

-- The outer loop, up to `size`.
unfoldable pub sections_loop : ℕ → Endianness → Bytes → ℕ → Scan → Outcome Exit
sections_loop zero endian start size s = spin
sections_loop (suc f) endian start size s = elim (ltb s.pos size) [
  | false ↦ done (loop_end s)
  | true ↦ elim (section_round endian start s.pos) [
    | none ↦ fault
    | some (passes p) ↦ sections_loop f endian start size (record s { pos = p })
    | some gives_up ↦ done returns_none
    | some (reads p end) ↦ elim (attributes_loop (suc end) start end (record s { pos = p })) [
      | fault ↦ fault
      | spin ↦ spin
      | done returns_none ↦ done returns_none
      | done (loop_end s') ↦ sections_loop f endian start size s'
    ]
  ]
]

-- The unsupported combinations behind the loop.
unfoldable pub settle : Scan → AoscArch
settle s = elim s.ret [
  | AoscArch.armv4 ↦ if s.hard_float then AoscArch.none else AoscArch.armv4
  | AoscArch.armv6hf ↦ if s.hard_float then AoscArch.armv6hf else AoscArch.none
  | AoscArch.armv7hf ↦ if s.hard_float then AoscArch.armv7hf else AoscArch.none
  | a ↦ a
]

abbrev pub exit_arch : Exit → AoscArch
exit_arch (loop_end s) = settle s
exit_arch returns_none = AoscArch.none

-- `strtab` is the parameter `shstrndx`.
unfoldable pub get_elf_arm_arch : ℕ → ElfFile → Endianness → ℕ → Outcome AoscArch
get_elf_arm_arch fuel elf endian strtab =
    elim (find_elf_section_header elf.sections elf strtab (codes ".ARM.attributes")
      sht_arm_attributes) [
        | none ↦ done AoscArch.none
        | some shdr ↦
            let start = elf.data_at shdr.sh_offset in
            elim (get_elem? start 0) [
              | none ↦ fault
              | some version ↦
                  let scan : Scan = record { pos = 1; ret = AoscArch.none; hard_float = false } in
                  let scanned = sections_loop fuel endian start shdr.sh_size scan in
                  if not (version == b'A')
                  then done AoscArch.none
                  else then_do scanned (λ e. done (exit_arch e))
            ]
      ]
