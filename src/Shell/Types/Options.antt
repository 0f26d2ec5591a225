-- ===== src/Shell/Types/Options.antt =====
-- What the options of `ab_typecheck` in native/abnativefunctions.cpp ask for.
use autobuild.Base.{
  ℕ, Bool, true, false, ◌&&◌, ◌||◌, List, [], ◌∷◌, ◌==◌, all, if◌then◌else◌, Option, some, Bytes,
  or_assoc, ◌≡◌, refl, ap, sym, ◌∙◌, arith, inl, inr, ◌⊎◌, and-eq-true,
}
use autobuild.Shell.{Var}
use autobuild.Shell.Words.{WordList}
use autobuild.Shell.Types.{
  Expected, nothing, expect, expect_all, has_type, find_either, ab_typecheck,
}

unfoldable pub is_option : ℕ → Bool
is_option opt = opt == b'a' || (opt == b'h' || (opt == b's' || (opt == b'i' || opt == b'f')))

-- Whether a variable has the type of one option. No variable has that of `-s`.
unfoldable pub fits : Var → ℕ → Bool
fits var opt =
    opt == b'a' && var.is_array
    || (opt == b'h' && var.is_assoc
        || (opt == b'i' && var.is_integer || opt == b'f' && var.is_function))

unfoldable pub fits_any : Var → List ℕ → Bool
fits_any var [] = false
fits_any var (opt ∷ opts) = fits var opt || fits_any var opts

is_option-cases :
    (opt : ℕ)
    → is_option opt ≡ true
    → (opt ≡ b'a') ⊎ ((opt ≡ b'h') ⊎ ((opt ≡ b's') ⊎ ((opt ≡ b'i') ⊎ (opt ≡ b'f'))))
unfolding is_option
is_option-cases opt h = ground (arith, h)

has_type-nothing : (var : Var) → has_type var nothing ≡ false
unfolding has_type
has_type-nothing var = ground arith

expect-fits :
    (var : Var) (opt : ℕ) (expected : Expected)
    → is_option opt ≡ true
    → (next : Expected) × (expect opt expected ≡ some next)
      × (has_type var next ≡ (has_type var expected || fits var opt))
unfolding is_option expect has_type fits
expect-fits var opt expected h = elim (is_option-cases opt h) [
  | inl array ↦ (record expected { array = true }, rw array refl, rw array (ground arith))
  | inr (inl assoc) ↦ (record expected { assoc = true }, rw assoc refl, rw assoc (ground arith))
  | inr (inr (inl scalar)) ↦ (expected, rw scalar refl, rw scalar (ground arith))
  | inr (inr (inr (inl integer))) ↦
      (record expected { integer = true }, rw integer refl, rw integer (ground arith))
  | inr (inr (inr (inr function))) ↦
      (record expected { function = true }, rw function refl, rw function (ground arith))
]

expect_all-fits :
    (var : Var) (opts : List ℕ) (expected : Expected)
    → all is_option opts ≡ true
    → (last : Expected) × (expect_all opts expected ≡ some last)
      × (has_type var last ≡ (has_type var expected || fits_any var opts))
unfolding expect_all fits_any
expect_all-fits var [] expected h = (expected, refl, ground arith)
expect_all-fits var (opt ∷ opts) expected h =
    let both = and-eq-true (is_option opt) (all is_option opts) h in
    let (next, one, has_one) = expect-fits var opt expected both.0 in
    let (last, rest, has_rest) = expect_all-fits var opts next both.1 in
    (
      last,
      rw (expect_all, one) rest,
      has_rest
          ∙ ap (λ b. b || fits_any var opts) has_one
          ∙ sym (or_assoc (has_type var expected) (fits var opt) (fits_any var opts)),
    )

-- With options that are known, a variable or a function of the name passes the check just if it
-- has the type of one of them; the option `-s`, for a text, adds none.
pub ab_typecheck-fits :
    (find_variable find_function : Bytes → Option Var) (getopt : WordList → List ℕ × WordList)
    (list rest : WordList) (opts : List ℕ) (varname : Bytes) (var : Var)
    → getopt list ≡ (opts, some varname ∷ rest)
    → all is_option opts ≡ true
    → find_either find_variable find_function varname ≡ some var
    → ab_typecheck find_variable find_function getopt list ≡ (if fits_any var opts then 0 else 1)
unfolding ab_typecheck
ab_typecheck-fits find_variable find_function getopt list rest opts varname var parsed known has =
    let (last, expected, typed) = expect_all-fits var opts nothing known in
    rw (ab_typecheck, parsed, expected, parsed, has, typed, has_type-nothing var) refl
