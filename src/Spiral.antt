-- ===== src/Spiral.antt =====
-- native/abspiral.cpp: the Debian packages that provide a soname. The table of
-- native/abspiral_data.cpp is the argument `lut`, the function `lut_lookup`.
pub mod Lookup
pub mod Pieces
pub mod Provides
mod Tests
use autobuild.Base.{
  ℕ, zero, suc, ◌+◌, ◌-◌, List, [], ◌∷◌, ◌++◌, ltb, leb, if◌then◌else◌, Option, none, some, Bytes,
  codes, equal, length, drop, substr, find_char_from, find_char, find_text, emplace,
}

-- The `while` loop that cuts the package names at the commas, and the test behind it. `none`
-- means that the fuel ran out.
unfoldable pub split_loop : ℕ → Bytes → ℕ → ℕ → List Bytes → Option (List Bytes)
split_loop zero s pos prev names = none
split_loop (suc f) s pos prev names = elim (find_char_from b',' s pos) [
  | some p ↦ split_loop f s (p + 1) (p + 1) (emplace (substr s prev (p - prev)) names)
  | none ↦ some (if ltb prev (length s) then emplace (drop prev s) names else names)
]

-- The body of the loop over the package names.
unfoldable pub provide : Bytes → Bytes → List Bytes → List Bytes
provide prov suffix out =
    let out' = emplace (prov ++ suffix) out in
    let size = length prov in
    if ltb size 4
    then out'
    else if equal (substr prov (size - 4) (size - 1)) (codes "t64")
    then emplace (substr prov 0 (size - 3) ++ suffix) out'
    else out'

unfoldable pub provide_all : List Bytes → Bytes → List Bytes → List Bytes
provide_all [] suffix out = out
provide_all (p ∷ ps) suffix out = provide_all ps suffix (provide p suffix out)

module _ (lut : Bytes → Option Bytes) where
  -- The loop has as many rounds as there are commas, and one more.
  unfoldable pub insert_from_lut : Bytes → Bytes → List Bytes → List Bytes
  insert_from_lut key suffix out = elim (lut key) [
    | none ↦ out
    | some packages ↦ elim (split_loop (length packages + 1) packages 0 0 []) [
      | none ↦ out
      | some names ↦ provide_all names suffix out
    ]
  ]

  -- The rest of the loop's body, on the two parts of an entry.
  unfoldable pub from_soname : Bytes → Bytes → List Bytes → List Bytes
  from_soname soname arch_suffix provides =
      let exact = insert_from_lut soname arch_suffix provides in
      elim (find_text (codes ".so") soname) [
        | none ↦ exact
        | some pos ↦ insert_from_lut (substr soname 0 (pos + 3)) arch_suffix exact
      ]

  -- The body of the loop: an entry is a soname, or a soname, a colon and an architecture.
  unfoldable pub from_entry : Bytes → List Bytes → List Bytes
  from_entry s provides = elim (find_char b':' s) [
    | some pos ↦ from_soname (substr s 0 pos) (drop pos s) provides
    | none ↦ from_soname s [] provides
  ]

  unfoldable pub spiral_from_sonames : List Bytes → List Bytes → List Bytes
  spiral_from_sonames [] provides = provides
  spiral_from_sonames (s ∷ ss) provides = spiral_from_sonames ss (from_entry s provides)
