-- ===== src/Base/Text.antt =====
-- Byte strings: `std::string` and C strings as lists of byte values.
use Prim.Native.Char.{code}
use Prim.Native.Nat.{ℕ, suc, ◌+◌}
use Prim.Native.String.{String}
use mathlib.Core.Bool.{Bool, true, false, ◌&&◌}
use mathlib.Core.List.{List, [], ◌∷◌}
use mathlib.Core.Logic.{◌↔◌}
use mathlib.Core.Path.{◌≡◌, refl}
use native.Mathlib.Omega.{arith}
use mathlib.Core.Option.{Option, none, some}
use autobuild.Base.Tests.{◌==◌, if◌then◌else◌}
use autobuild.Base.Lists.{take, drop}

abbrev pub Bytes : Type 0
Bytes = List ℕ

-- The bytes of an ASCII literal.
abbrev pub codes : String → Bytes
codes String.[] = []
codes (String.◌∷◌ c s) = code c ∷ codes s

-- `operator==` of two byte strings.
unfoldable pub equal : Bytes → Bytes → Bool
equal [] [] = true
equal [] (d ∷ ds) = false
equal (c ∷ cs) [] = false
equal (c ∷ cs) (d ∷ ds) = c == d && equal cs ds

pub equal_iff : (s t : Bytes) → (equal s t ≡ true) ↔ (s ≡ t)
unfolding equal
equal_iff [] [] = ground arith
equal_iff [] (d ∷ ds) = ground arith
equal_iff (c ∷ cs) [] = ground arith
equal_iff (c ∷ cs) (d ∷ ds) = ground (arith, equal_iff cs ds)

pub equal_refl : (a : Bytes) → equal a a ≡ true
equal_refl a = (equal_iff a a).1 refl

-- `memcmp(s, prefix, strlen(prefix)) == 0` on a C string `s`: its end differs from every
-- character of the prefix.
unfoldable pub starts_with : Bytes → Bytes → Bool
starts_with [] s = true
starts_with (p ∷ ps) [] = false
starts_with (p ∷ ps) (c ∷ cs) = p == c && starts_with ps cs

-- `s.substr(pos, n)` for a position inside the string; what is past the end is cut off.
abbrev pub substr : Bytes → ℕ → ℕ → Bytes
substr s pos n = take n (drop pos s)

-- The first position of a character, and of a string, in what stands from `pos` on.
unfoldable pub find_char : ℕ → Bytes → Option ℕ
find_char c [] = none
find_char c (x ∷ xs) = elim (x == c) [
  | true ↦ some 0
  | false ↦ elim (find_char c xs) [ none ↦ none | some i ↦ some (suc i) ]
]

abbrev pub find_char_from : ℕ → Bytes → ℕ → Option ℕ
find_char_from c s pos = elim (find_char c (drop pos s)) [ none ↦ none | some i ↦ some (pos + i) ]

unfoldable pub find_text : Bytes → Bytes → Option ℕ
find_text t [] = if starts_with t [] then some 0 else none
find_text t (x ∷ xs) = elim (starts_with t (x ∷ xs)) [
  | true ↦ some 0
  | false ↦ elim (find_text t xs) [ none ↦ none | some i ↦ some (suc i) ]
]
