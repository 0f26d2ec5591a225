-- ===== src/Elf/Sections/BuildId.antt =====
-- A build id is the hexadecimal text of the note, and can be read back.
use Prim.Native.Nat.{bit_and}
use autobuild.Base.{
  ◌+◌, ◌*◌, ◌/◌, ◌<◌, true, [], ◌∷◌, ◌≡◌, refl, arith, ltb, ◌==◌, if◌then◌else◌, ==_iff, Bytes, all,
  all_below, all_below_sound, leb, ◌&&◌, ◌||◌, ltb_iff, length, Bool, ℕ,
}
use autobuild.Elf.Sections.{hex_digit, hex}

-- The value of a digit.
abbrev unhex_digit : ℕ → ℕ
unhex_digit d = if ltb d b'a' then Prim.Native.Nat.◌-◌ d b'0' else Prim.Native.Nat.◌-◌ d 87

pub unhex : Bytes → Bytes
unhex (a ∷ b ∷ ds) = (unhex_digit a * 16 + unhex_digit b) ∷ unhex ds
unhex _ = []

abbrev read_back : ℕ → ℕ
read_back v =
    unhex_digit (hex_digit (bit_and v 0xf0 / 16)) * 16 + unhex_digit (hex_digit (bit_and v 0x0f))

read_back_table : all_below 256 (λ v. read_back v == v) ≡ true
unfolding all_below hex_digit
read_back_table = refl

read_back_lem : (v : ℕ) → v < 256 → read_back v ≡ v
read_back_lem v h =
    (==_iff (read_back v) v).0 (all_below_sound 256 (λ v. read_back v == v) read_back_table v h)

-- `0` to `9` and `a` to `f`.
abbrev pub is_hexadecimal : ℕ → Bool
is_hexadecimal d = (leb b'0' d && leb d b'9') || (leb b'a' d && leb d b'f')

digits_table :
    all_below 256 (λ v.
      is_hexadecimal (hex_digit (bit_and v 0xf0 / 16))
      && is_hexadecimal (hex_digit (bit_and v 0x0f)))
    ≡ true
unfolding all_below hex_digit
digits_table = refl

-- The text of a build id has two hexadecimal digits, in small letters, for each byte of the note,
-- and the bytes can be read back from it, the upper half of a byte first.
pub unhex-hex :
    (v : Bytes)
    → all (λ b. ltb b 256) v ≡ true
    → (unhex (hex v) ≡ v) × (all is_hexadecimal (hex v) ≡ true) × (length (hex v) ≡ 2 * length v)
unfolding unhex hex
unhex-hex [] h = (refl, refl, refl)
unhex-hex (b ∷ v) h =
    let (back, digits, long) = unhex-hex v (ground arith) in
    let two = all_below_sound 256 _ digits_table b ((ltb_iff b 256).0 (ground arith)) in
    (ground (arith, back, read_back_lem b), ground (arith, two, digits), omega (arith, long))
