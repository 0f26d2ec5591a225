-- ===== src/Elf/Arm/Uleb.antt =====
-- Where `decode_uleb128` agrees with the format, and where it does not. It looks for the
-- continuation bit in the byte behind the one that it has taken.
use Prim.Native.Nat.{bit_and, bit_or}
use native.Mathlib.Nat.{suc-add}
use autobuild.Base.{
  ℕ, zero, suc, ◌+◌, ◌-◌, ◌*◌, ◌%◌, ◌≤◌, ◌<◌, true, [], ◌∷◌, ◌≡◌, refl, arith, ltb, ◌==◌,
  if◌then◌else◌, ==_iff, Option, none, some, done, Bytes, get_elem?, drop, ◌∙◌, all_below,
  all_below_sound,
}
use autobuild.Elf.Arm.{shift_int, uleb_loop, decode_uleb128}

-- The number at the front of some bytes, in the format: the seven low bits of each byte, lowest
-- first, up to the first byte without the top bit. Also how many bytes that takes.
abbrev pub uleb128 : Bytes → Option (ℕ × ℕ)
uleb128 [] = none
uleb128 (b ∷ bs) =
    if ltb b 128
    then some (b, 1)
    else elim (uleb128 bs) [ none ↦ none | some (v, n) ↦ some (b % 128 + 128 * v, n + 1) ]

low_table : all_below 256 (λ b. bit_and b 0x7f == b % 128) ≡ true
unfolding all_below
low_table = refl

low_bits : (b : ℕ) → b < 256 → bit_and b 0x7f ≡ b % 128
low_bits b h = (==_iff (bit_and b 0x7f) (b % 128)).0 (all_below_sound 256 _ low_table b h)

top_table :
    all_below 256 (λ b. if ltb b 128 then bit_and b 0x80 == 0 else bit_and b 0x80 == 128) ≡ true
unfolding all_below
top_table = refl

top_bit : (b : ℕ) → b < 256 → (bit_and b 0x80 == 0) ≡ ltb b 128
top_bit b h = ground (arith, all_below_sound 256 _ top_table b h)

or_table : all_below 128 (λ b. bit_or 0 b == b) ≡ true
unfolding all_below
or_table = refl

or_zero : (b : ℕ) → b < 128 → bit_or 0 b ≡ b
or_zero b h = (==_iff (bit_or 0 b) b).0 (all_below_sound 128 _ or_table b h)

shift_zero : (b : ℕ) → b < 128 → shift_int b 0 ≡ done b
unfolding shift_int
shift_zero b h = ground arith

uleb_loop_one_byte :
    (n : ℕ) (start : Bytes) (pos b next : ℕ)
    → get_elem? start pos ≡ some b
    → get_elem? start (pos + 1) ≡ some next
    → b < 256
    → next < 128
    → uleb_loop (suc n) start pos 0 0 ≡ done (b % 128, pos + 1)
unfolding uleb_loop
uleb_loop_one_byte n start pos b next e f x y =
    ground (arith, low_bits b, shift_zero (b % 128), or_zero (b % 128), top_bit next)

drop-get :
    (start : Bytes) (pos b : ℕ)
    → get_elem? start pos ≡ some b
    → drop pos start ≡ b ∷ drop (pos + 1) start
drop-get [] pos b e = cc
drop-get (x ∷ xs) zero b e = ground arith
drop-get (x ∷ xs) (suc pos) b e = rw suc-add (drop-get xs pos b e)

module _ (start : Bytes) (pos_max pos b next : ℕ) (inside : pos < pos_max)
    (here : get_elem? start pos ≡ some b) (behind : get_elem? start (pos + 1) ≡ some next)
    (byte : b < 256) (last : next < 128) where
  decode_one_byte : decode_uleb128 start pos_max pos ≡ done (b % 128, pos + 1)
  unfolding decode_uleb128
  decode_one_byte =
      let more : pos_max - pos ≡ suc (pos_max - pos - 1) = omega arith in
      rw more (uleb_loop_one_byte (pos_max - pos - 1) start pos b next here behind byte last)

  -- A number of one byte is read as the format says, if the byte behind it has no top bit.
  pub decode_uleb128-uleb128 :
      b < 128
      → (v : ℕ) × (n : ℕ) × (uleb128 (drop pos start) ≡ some (v, n))
        × (decode_uleb128 start pos_max pos ≡ done (v, pos + n))
  decode_uleb128-uleb128 h =
      (b, 1, rw (drop-get start pos b here) (ground arith), decode_one_byte ∙ ground arith)

  -- A number of two bytes is not: only the first is taken, and its seven bits are the value.
  pub decode_uleb128_two_bytes :
      128 ≤ b
      → (uleb128 (drop pos start) ≡ some (b % 128 + 128 * next, 2))
        × (decode_uleb128 start pos_max pos ≡ done (b % 128, pos + 1))
  decode_uleb128_two_bytes h = (
    rw (drop-get start pos b here, drop-get start (pos + 1) next behind) (ground arith),
    decode_one_byte,
  )
