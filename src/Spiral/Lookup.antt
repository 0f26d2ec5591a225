-- ===== src/Spiral/Lookup.antt =====
-- What a list of sonames provides.
use autobuild.Base.{
  ◌+◌, ◌<◌, ◌++◌, length, Bool, false, ◌||◌, List, [], ◌∷◌, ◌≡◌, sym, ap, ◌∙◌, inl, inr, arith,
  Option-cases, Option, none, some, Bytes, codes, take, drop, or_false, contains, insert_all,
  or_assoc, find_char, find_text,
}
use autobuild.Spiral.{provide, insert_from_lut, from_soname, from_entry, spiral_from_sonames}
use autobuild.Spiral.Provides.{
  names_contain, provide-t64, provide_all-names_contain, names_contain-insert_all,
}
use autobuild.Spiral.Pieces.{pieces, split_loop_total}

-- What the table has for a key, as a test.
unfoldable pub listed : (Bytes → Option Bytes) → Bytes → Bytes → Bytes → Bool
listed lut key suffix x = elim (lut key) [
  | none ↦ false
  | some v ↦ names_contain (pieces v) suffix x
]

-- What one entry of the list of sonames asks the table for: the soname, and what stands before
-- and with the first `.so`.
abbrev pub stem_listed : (Bytes → Option Bytes) → Bytes → Bytes → Bytes → Bool
stem_listed lut soname suffix x = elim (find_text (codes ".so") soname) [
  | none ↦ false
  | some pos ↦ listed lut (take (pos + 3) soname) suffix x
]

unfoldable pub entry_listed : (Bytes → Option Bytes) → Bytes → Bytes → Bool
entry_listed lut s x = elim (find_char b':' s) [
  | none ↦ listed lut s [] x || stem_listed lut s [] x
  | some pos ↦ listed lut (take pos s) (drop pos s) x || stem_listed lut (take pos s) (drop pos s) x
]

unfoldable pub any_listed : (Bytes → Option Bytes) → List Bytes → Bytes → Bool
any_listed lut [] x = false
any_listed lut (s ∷ ss) x = entry_listed lut s x || any_listed lut ss x

module _ (lut : Bytes → Option Bytes) where
  insert_from_lut-listed :
      (key suffix : Bytes) (out : List Bytes) (x : Bytes)
      → contains (insert_from_lut lut key suffix out) x
        ≡ (contains out x || listed lut key suffix x)
  unfolding insert_from_lut listed names_contain
  insert_from_lut-listed key suffix out x = elim (Option-cases (lut key)) [
    | inl e ↦ rw (e, insert_from_lut, listed) (sym (or_false (contains out x)))
    | inr (v, e) ↦
        rw (e, insert_from_lut, listed)
          (rw (split_loop_total v) (
            provide_all-names_contain (insert_all (pieces v) []) suffix out x
            ∙ ap (◌||◌ (contains out x)) (names_contain-insert_all (pieces v) [] suffix x)))
  ]

  from_soname-listed :
      (soname suffix : Bytes) (out : List Bytes) (x : Bytes)
      → contains (from_soname lut soname suffix out) x
        ≡ (contains out x || (listed lut soname suffix x || stem_listed lut soname suffix x))
  unfolding from_soname
  from_soname-listed soname suffix out x = elim (Option-cases (find_text (codes ".so") soname)) [
    | inl e ↦
        ground
          (arith, insert_from_lut-listed soname suffix out x, or_false (listed lut soname suffix x))
    | inr (pos, e) ↦ ground (
      arith,
      insert_from_lut-listed soname suffix out x,
      insert_from_lut-listed (take (pos + 3) soname) suffix (insert_from_lut lut soname suffix out)
          x,
      or_assoc (contains out x) (listed lut soname suffix x)
          (listed lut (take (pos + 3) soname) suffix x),
    )
  ]

  entry-listed :
      (s : Bytes) (out : List Bytes) (x : Bytes)
      → contains (from_entry lut s out) x ≡ (contains out x || entry_listed lut s x)
  unfolding from_entry entry_listed
  entry-listed s out x = elim (Option-cases (find_char b':' s)) [
    | inl e ↦ ground (arith, from_soname-listed s [] out x)
    | inr (pos, e) ↦ ground (arith, from_soname-listed (take pos s) (drop pos s) out x)
  ]

  any-listed :
      (ss : List Bytes) (out : List Bytes) (x : Bytes)
      → contains (spiral_from_sonames lut ss out) x ≡ (contains out x || any_listed lut ss x)
  unfolding spiral_from_sonames any_listed
  any-listed [] out x = sym (or_false (contains out x))
  any-listed (s ∷ ss) out x =
      any-listed ss (from_entry lut s out) x
      ∙ ap (λ b. b || any_listed lut ss x) (entry-listed s out x)
      ∙ sym (or_assoc (contains out x) (entry_listed lut s x) (any_listed lut ss x))

  -- Whatever the table, the result has what was in the set before, what the table lists for a whole
  -- soname or for its part up to `.so`, each with the suffix of its entry, and for a listed package
  -- of four characters that begin with `t64` its first character with the suffix, and no more. In
  -- particular no package with `t64` behind a name of two characters or more provides that name.
  pub spiral_from_sonames-listed :
      (ss : List Bytes) (out : List Bytes) (x stem suffix : Bytes)
      → 1 < length stem
      → (contains (spiral_from_sonames lut ss out) x ≡ (contains out x || any_listed lut ss x))
        × (contains (provide (stem ++ codes "t64") suffix out) (stem ++ suffix)
            ≡ contains out (stem ++ suffix))
  spiral_from_sonames-listed ss out x stem suffix long =
      (any-listed ss out x, provide-t64 stem suffix out long)
