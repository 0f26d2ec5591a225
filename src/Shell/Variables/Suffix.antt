-- ===== src/Shell/Variables/Suffix.antt =====
-- Which of the variables with a suffix is taken.
use autobuild.Base.{
  ℕ, ◌+◌, Bool, true, false, List, [], ◌∷◌, ◌++◌, ltb, if◌then◌else◌, Option, none, some, ◌>>=◌,
  ◌≡◌, ◌≢◌, refl, ap, arith, Bytes, codes, Option-cases, inl, inr, length, length-append,
}
use autobuild.Shell.{Value, Var}
use autobuild.Shell.Variables.{
  Bash, destination, autobuild_copy_variable, suffix_loop, autobuild_get_variable_with_suffix,
}

abbrev pub is_some : Option Var → Bool
is_some none = false
is_some (some v) = true

-- What is relied on: whether a variable is there changes for the variable that is made, and for no
-- other; an assignment to a value changes it for none.
pub record Keeps {ℓ} {S : Type ℓ} (bash : Bash S) : Type ℓ where
  pub array_keeps :
      (made other : Bytes) (s : S)
      → other ≢ made
      → is_some (bash.find_variable other (bash.make_new_array_variable made s).0)
        ≡ is_some (bash.find_variable other s)
  pub bind_keeps :
      (made value other : Bytes) (s : S)
      → other ≢ made
      → is_some (bash.find_variable other (bash.bind_variable made value s).0)
        ≡ is_some (bash.find_variable other s)
  pub reference_keeps :
      (made target other : Bytes) (s : S)
      → other ≢ made
      → is_some (bash.find_variable other (bash.declare_reference made target s))
        ≡ is_some (bash.find_variable other s)
  pub value_keeps :
      (name : Bytes) (value : Value) (other : Bytes) (s : S)
      → is_some (bash.find_variable other (bash.set_value name value s))
        ≡ is_some (bash.find_variable other s)

abbrev pub with_suffix : Bytes → Bytes → Bytes
with_suffix name suffix = name ++ (codes "__" ++ suffix)

with_suffix-ne : (name suffix : Bytes) → with_suffix name suffix ≢ name
with_suffix-ne name suffix e =
    absurd (omega (arith, ap length e, length-append name (codes "__" ++ suffix)))

module _ {ℓ} {S : Type ℓ} (bash : Bash S) where
  -- Whether there is a variable for a suffix.
  abbrev pub has : Bytes → S → Bytes → Bool
  has name s suffix = is_some (bash.find_variable (with_suffix name suffix) s)

  -- The number of the suffixes that have one.
  abbrev pub count : Bytes → List Bytes → S → ℕ
  count name [] s = 0
  count name (suffix ∷ aliases) s = (if has name s suffix then 1 else 0) + count name aliases s

  -- The variable of the first such suffix.
  abbrev pub first_variable : Bytes → List Bytes → S → Option Var
  first_variable name [] s = none
  first_variable name (suffix ∷ aliases) s =
      let rest = first_variable name aliases s in
      elim (bash.find_variable (with_suffix name suffix) s) [ none ↦ rest | some v ↦ some v ]

  -- A conflict: two groups have a variable, and the architecture has none.
  abbrev pub status_of : Bytes → List Bytes → S → ℕ
  status_of name [] s = 0
  status_of name (arch ∷ groups) s =
      if has name s arch then 0 else if ltb 1 (count name groups s) then 1 else 0

  -- The first variable is copied, and the status is given.
  abbrev pub copies : Bytes → Option Var → ℕ → S → Option (S × ℕ)
  copies name none status s = some (s, 0)
  copies name (some v) status s =
      autobuild_copy_variable bash v name true s >>= λ (t, copied). some (t, status)

  module _ (keeps : Keeps bash) where
    destination-has :
        (src : Var) (name other : Bytes) (s : S)
        → other ≢ name
        → is_some (bash.find_variable other (destination bash src name s).0)
          ≡ is_some (bash.find_variable other s)
    unfolding destination
    destination-has src name other s n = elim (Option-cases (bash.find_variable name s)) [
      | inl e ↦
          ground (arith, keeps.array_keeps name other s n, keeps.bind_keeps name src.name other s n)
      | inr (dst, e) ↦ ground arith
    ]

    copy-has :
        (src : Var) (name other : Bytes) (s t : S) (copied : Bool)
        → other ≢ name
        → autobuild_copy_variable bash src name true s ≡ some (t, copied)
        → is_some (bash.find_variable other t) ≡ is_some (bash.find_variable other s)
    unfolding autobuild_copy_variable
    copy-has src name other s t copied n h =
        let made = destination bash src name s in
        ground (
          arith,
          destination-has src name other s n,
          keeps.value_keeps made.1.name src.value other made.0,
          keeps.reference_keeps name src.name other made.0 n,
        )

    copy-count :
        (src : Var) (name : Bytes) (aliases : List Bytes) (s t : S) (copied : Bool)
        → autobuild_copy_variable bash src name true s ≡ some (t, copied)
        → count name aliases t ≡ count name aliases s
    copy-count src name [] s t copied h = refl
    copy-count src name (suffix ∷ aliases) s t copied h =
        let head : has name t suffix ≡ has name s suffix =
          copy-has src name (with_suffix name suffix) s t copied (with_suffix-ne name suffix) h in
        ground (arith, head, copy-count src name aliases s t copied h)

    -- Behind a variable that was found, one more is a conflict.
    loop_after :
        (name : Bytes) (aliases : List Bytes) (s : S)
        → suffix_loop bash false true name aliases s
          ≡ some (s, if ltb 0 (count name aliases s) then 1 else 0)
    unfolding suffix_loop
    loop_after name [] s = refl
    loop_after name (suffix ∷ aliases) s =
        elim (Option-cases (bash.find_variable (with_suffix name suffix) s)) [
          | inl e ↦ ground (arith, e, loop_after name aliases s)
          | inr (v, e) ↦ ground (arith, e)
        ]

    loop_groups :
        (name : Bytes) (aliases : List Bytes) (s : S)
        → suffix_loop bash false false name aliases s
          ≡ copies name
              (first_variable name aliases s)
              (if ltb 1 (count name aliases s) then 1 else 0)
              s
    unfolding suffix_loop
    loop_groups name [] s = refl
    loop_groups name (suffix ∷ aliases) s =
        elim (Option-cases (bash.find_variable (with_suffix name suffix) s)) [
          | inl e ↦ ground (arith, e, loop_groups name aliases s)
          | inr (v, e) ↦ elim (Option-cases (autobuild_copy_variable bash v name true s)) [
            | inl c ↦ ground (arith, e, c)
            | inr ((t, copied), c) ↦
                ground
                  (arith, e, c, loop_after name aliases t, copy-count v name aliases s t copied c)
          ]
        ]

    -- The variable of the first suffix that has one is copied, and the status is 1 if the
    -- architecture has none and two or more of its groups have one. It is relied on that an
    -- operation of bash makes no variable but the one that it names, and takes none away.
    pub get_variable_with_suffix-first :
        (name : Bytes) (aliases : List Bytes) (s : S)
        → autobuild_get_variable_with_suffix bash name aliases s
          ≡ copies name (first_variable name aliases s) (status_of name aliases s) s
    unfolding autobuild_get_variable_with_suffix suffix_loop
    get_variable_with_suffix-first name [] s = refl
    get_variable_with_suffix-first name (arch ∷ groups) s =
        elim (Option-cases (bash.find_variable (with_suffix name arch) s)) [
          | inl e ↦ ground (arith, e, loop_groups name groups s)
          | inr (v, e) ↦ ground (arith, e)
        ]
