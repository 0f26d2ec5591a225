-- ===== src/Base/Decimal/Reading.antt =====
-- Decimal numbers that are written out and read by `strtol`.
use Prim.Native.Nat.{ℕ, zero, suc, ◌+◌, ◌-◌, ◌*◌, ◌/◌, ◌%◌, ◌^◌, ◌≤◌, ◌<◌}
use mathlib.Core.Bool.{Bool, true, false}
use mathlib.Core.Path.{◌≡◌, refl, ap, ◌∙◌, sym}
use mathlib.Core.List.{[], ◌∷◌, ◌++◌, append-nil}
use mathlib.Core.Logic.{inl, inr}
use native.Mathlib.Omega.{arith}
use autobuild.Base.Tests.{lt→ltb, le→ltb, ltb, ◌==◌, Bool-cases, ltb-false, and-eq-true}
use autobuild.Base.Int.{pos}
use autobuild.Base.Lists.{all}
use autobuild.Base.Text.{Bytes}
use autobuild.Base.Decimal.{digits, decimal, is_digit, read_digits, strtol, is_space, negate}

-- The value of a row of digits, behind a value.
abbrev evaluate : ℕ → Bytes → ℕ
evaluate value [] = value
evaluate value (c ∷ cs) = evaluate (10 * value + (c - 48)) cs

evaluate-append :
    (ds : Bytes) (c value : ℕ) → evaluate value (ds ++ c ∷ []) ≡ 10 * evaluate value ds + (c - 48)
evaluate-append [] c value = refl
evaluate-append (d ∷ ds) c value = evaluate-append ds c (10 * value + (d - 48))

evaluate-digits : (fuel n : ℕ) → n ≤ fuel → evaluate 0 (digits fuel n) ≡ n
unfolding digits
evaluate-digits zero n h = omega (arith, h)
evaluate-digits (suc fuel) n h = elim (Bool-cases (ltb n 10)) [
  | inl small ↦ rw (digits, small) (omega arith)
  | inr large ↦
      let most = ltb-false n 10 large in
      let before = evaluate-digits fuel (n / 10) (omega (arith, h, most)) in
      rw (digits, large)
        (evaluate-append (digits fuel (n / 10)) (48 + n % 10) 0 ∙ omega (arith, before))
]

all-snoc :
    (ds : Bytes) (c : ℕ)
    → all is_digit ds ≡ true
    → is_digit c ≡ true
    → all is_digit (ds ++ c ∷ []) ≡ true
all-snoc [] c h k = ground arith
all-snoc (d ∷ ds) c h k = ground (arith, all-snoc ds c)

pub all-digits : (fuel n : ℕ) → all is_digit (digits fuel n) ≡ true
unfolding digits is_digit
all-digits zero n = ground arith
all-digits (suc fuel) n = elim (Bool-cases (ltb n 10)) [
  | inl small ↦ rw (digits, small) (ground arith)
  | inr large ↦
      rw (digits, large)
        (all-snoc (digits fuel (n / 10)) (48 + n % 10) (all-digits fuel (n / 10)) (ground arith))
]

-- What stands behind a number does not go on with a digit.
unfoldable pub ends : Bytes → Bool
ends [] = true
ends (c ∷ cs) = elim (is_digit c) [ true ↦ false | false ↦ true ]

read_digits-all :
    (ds rest : Bytes) (value : ℕ)
    → all is_digit ds ≡ true
    → ends rest ≡ true
    → read_digits value (ds ++ rest) ≡ (evaluate value ds, rest)
unfolding read_digits ends
read_digits-all [] [] value h k = refl
read_digits-all [] (c ∷ cs) value h k = ground (arith, k)
read_digits-all (d ∷ ds) rest value h k =
    let both = and-eq-true (is_digit d) (all is_digit ds) h in
    rw (read_digits, both.0) (read_digits-all ds rest (10 * value + (d - 48)) both.1 k)

-- A digit is neither a space nor a sign.
is_digit-other :
    (d : ℕ)
    → is_digit d ≡ true
    → (is_space d ≡ false) × ((d == b'-') ≡ false) × ((d == b'+') ≡ false)
unfolding is_digit
is_digit-other d h = ground arith

-- A row of digits is read as a number, up to its end.
strtol-row :
    (d : ℕ) (ds rest : Bytes)
    → all is_digit (d ∷ ds) ≡ true
    → ends rest ≡ true
    → evaluate 0 (d ∷ ds) < 2 ^ 63
    → strtol ((d ∷ ds) ++ rest) ≡ (pos (evaluate 0 (d ∷ ds)), rest)
unfolding strtol
strtol-row d ds rest h k small =
    let digit = (and-eq-true (is_digit d) (all is_digit ds) h).0 in
    let read = read_digits-all (d ∷ ds) rest 0 h k in
    let (spaces, minus, plus) = is_digit-other d digit in
    rw (strtol, spaces, minus, plus, digit, read, lt→ltb _ _ small) refl

pub digits-cons : (fuel n : ℕ) → (c : ℕ) × (cs : Bytes) × (digits fuel n ≡ c ∷ cs)
unfolding digits
digits-cons zero n = (48 + n % 10, [], refl)
digits-cons (suc fuel) n = elim (Bool-cases (ltb n 10)) [
  | inl small ↦ (48 + n, [], rw (digits, small) refl)
  | inr large ↦
      let (c, cs, same) = digits-cons fuel (n / 10) in
      (c, cs ++ (48 + n % 10) ∷ [], rw (digits, large, same) refl)
]

pub strtol-decimal :
    (n : ℕ) (rest : Bytes)
    → n < 2 ^ 63
    → ends rest ≡ true
    → strtol (decimal n ++ rest) ≡ (pos n, rest)
unfolding decimal
strtol-decimal n rest small k =
    let (c, cs, same) = digits-cons n n in
    let value : evaluate 0 (c ∷ cs) ≡ n =
      ap (evaluate 0) (sym same) ∙ evaluate-digits n n (omega arith) in
    let row =
      strtol-row c cs rest (ap (all is_digit) (sym same) ∙ all-digits n n) k
        (omega (arith, value, small)) in
    ap (λ ds. strtol (ds ++ rest)) same ∙ row ∙ ap (λ v. (pos v, rest)) value

-- The last digit.
pub digits-snoc :
    (fuel n : ℕ) → (ds : Bytes) × (c : ℕ) × (digits fuel n ≡ ds ++ c ∷ []) × (is_digit c ≡ true)
unfolding digits is_digit
digits-snoc zero n = ([], 48 + n % 10, refl, ground arith)
digits-snoc (suc fuel) n = elim (Bool-cases (ltb n 10)) [
  | inl small ↦ ([], 48 + n, rw (digits, small) refl, ground arith)
  | inr large ↦ (digits fuel (n / 10), 48 + n % 10, rw (digits, large) refl, ground arith)
]

strtol-minus_row :
    (d : ℕ) (ds : Bytes)
    → all is_digit (d ∷ ds) ≡ true
    → evaluate 0 (d ∷ ds) ≤ 2 ^ 63
    → strtol (b'-' ∷ d ∷ ds) ≡ (negate (evaluate 0 (d ∷ ds)), [])
unfolding strtol ends
strtol-minus_row d ds h small =
    let digit = (and-eq-true (is_digit d) (all is_digit ds) h).0 in
    let read =
      ap (read_digits 0) (sym (append-nil (d ∷ ds))) ∙ read_digits-all (d ∷ ds) [] 0 h refl in
    rw (digit, read, le→ltb _ _ small) refl

pub strtol-minus_decimal : (n : ℕ) → n ≤ 2 ^ 63 → strtol (b'-' ∷ decimal n) ≡ (negate n, [])
unfolding decimal
strtol-minus_decimal n small =
    let (c, cs, same) = digits-cons n n in
    let value : evaluate 0 (c ∷ cs) ≡ n =
      ap (evaluate 0) (sym same) ∙ evaluate-digits n n (omega arith) in
    let row =
      strtol-minus_row c cs (ap (all is_digit) (sym same) ∙ all-digits n n)
        (omega (arith, value, small)) in
    ap (λ ds. strtol (b'-' ∷ ds)) same ∙ row ∙ ap (λ v. (negate v, [])) value
