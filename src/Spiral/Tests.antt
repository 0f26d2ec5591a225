-- ===== src/Spiral/Tests.antt =====
-- The lookup at a small table.
use autobuild.Base.{
  true, false, arith, [], ◌∷◌, ◌≡◌, refl, Option, none, some, if◌then◌else◌, Bytes, codes, equal,
  contains, emplace, insert_all, find_char, find_text, starts_with,
}
use autobuild.Spiral.{
  provide, provide_all, split_loop, insert_from_lut, from_soname, from_entry, spiral_from_sonames,
}
use autobuild.Spiral.Lookup.{any_listed, spiral_from_sonames-listed}

-- One library, with and without its version.
abbrev small_lut : Bytes → Option Bytes
small_lut s =
    if equal s (codes "libz.so.1")
    then some (codes "zlib1g")
    else if equal s (codes "libz.so")
    then some (codes "zlib1g-dev,libz-dev")
    else none

provides :
    contains
      (spiral_from_sonames small_lut (codes "libz.so.1:amd64" ∷ []) [])
      (codes "libz-dev:amd64")
    ≡ true
unfolding spiral_from_sonames from_entry find_char from_soname find_text starts_with insert_from_lut
    equal split_loop provide_all emplace contains provide insert_all
provides = refl

spiral_from_sonames-listed_example :
    (contains
        (spiral_from_sonames small_lut (codes "libz.so.1:amd64" ∷ []) [])
        (codes "libz-dev:amd64")
      ≡ any_listed small_lut (codes "libz.so.1:amd64" ∷ []) (codes "libz-dev:amd64"))
    × (contains (provide (codes "libpng16-16t64") (codes ":amd64") []) (codes "libpng16-16:amd64")
        ≡ false)
unfolding contains
spiral_from_sonames-listed_example =
    spiral_from_sonames-listed small_lut (codes "libz.so.1:amd64" ∷ []) [] (codes "libz-dev:amd64")
      (codes "libpng16-16") (codes ":amd64") (omega arith)
