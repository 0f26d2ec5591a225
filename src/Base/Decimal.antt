-- ===== src/Base/Decimal.antt =====
-- Numbers written in decimal digits, as `fmt`, `printf` and `itos` write them, and read, as
-- `strtol` and `atoi` read them.
pub mod Reading
use Prim.Native.Nat.{ℕ, zero, suc, ◌+◌, ◌-◌, ◌*◌, ◌/◌, ◌%◌, ◌^◌, ◌≤◌, ◌<◌}
use mathlib.Core.Bool.{Bool, true, false, ◌&&◌, ◌||◌}
use mathlib.Core.Path.{◌≡◌, refl, ap, ◌∙◌}
use mathlib.Core.List.{List, [], ◌∷◌, ◌++◌}
use native.Mathlib.Omega.{arith}
use autobuild.Base.Tests.{ltb, leb, ◌==◌, if◌then◌else◌, Bool-cases, ltb_iff, ltb-false}
use autobuild.Base.Int.{ℤ, pos, negsuc}
use autobuild.Base.Lists.{length, all}
use autobuild.Base.Text.{Bytes}
use mathlib.Core.Logic.{inl, inr}

-- The digits of a number that is at most the fuel.
unfoldable pub digits : ℕ → ℕ → Bytes
digits zero n = (48 + n % 10) ∷ []
digits (suc fuel) n = elim (ltb n 10) [
  | true ↦ (48 + n) ∷ []
  | false ↦ digits fuel (n / 10) ++ (48 + n % 10) ∷ []
]

unfoldable pub decimal : ℕ → Bytes
decimal n = digits n n

abbrev pub spaces : ℕ → Bytes
spaces zero = []
spaces (suc n) = b' ' ∷ spaces n

-- A text that is filled up with spaces at its left.
unfoldable pub pad_left : ℕ → Bytes → Bytes
pad_left width s = spaces (width - length s) ++ s

unfoldable pub is_digit : ℕ → Bool
is_digit c = leb 48 c && leb c 57

-- `isspace`.
abbrev pub is_space : ℕ → Bool
is_space c = c == 32 || leb 9 c && leb c 13

abbrev skip_spaces : Bytes → Bytes
skip_spaces [] = []
skip_spaces (c ∷ cs) = let rest = skip_spaces cs in if is_space c then rest else c ∷ cs

-- The value of the digits at the start, behind those read, and what follows them.
unfoldable pub read_digits : ℕ → Bytes → ℕ × Bytes
read_digits value [] = (value, [])
read_digits value (c ∷ cs) = elim (is_digit c) [
  | true ↦ read_digits (10 * value + (c - 48)) cs
  | false ↦ (value, c ∷ cs)
]

abbrev pub negate : ℕ → ℤ
negate zero = pos 0
negate (suc n) = negsuc n

-- `long` from its least to its greatest value.
abbrev clamp : Bool → ℕ → ℤ
clamp negative value =
    if negative
    then (if ltb (2 ^ 63) value then negsuc (2 ^ 63 - 1) else negate value)
    else if ltb value (2 ^ 63)
    then pos value
    else pos (2 ^ 63 - 1)

-- A number behind its sign; without a digit nothing is read of the whole text.
abbrev read_number : Bytes → Bool → Bytes → ℤ × Bytes
read_number whole negative [] = (pos 0, whole)
read_number whole negative (c ∷ cs) =
    let (value, rest) = read_digits 0 (c ∷ cs) in
    if is_digit c then (clamp negative value, rest) else (pos 0, whole)

abbrev read_sign : Bytes → Bytes → ℤ × Bytes
read_sign whole [] = (pos 0, whole)
read_sign whole (c ∷ cs) =
    if c == b'-'
    then read_number whole true cs
    else if c == b'+'
    then read_number whole false cs
    else read_number whole false (c ∷ cs)

-- The value to base 10, and the text from `*endptr` on.
unfoldable pub strtol : Bytes → ℤ × Bytes
strtol text = read_sign text (skip_spaces text)

-- `atoi`, which is defined on the numbers that an `int` holds.
unfoldable pub atoi : Bytes → ℤ
atoi text = (strtol text).0
