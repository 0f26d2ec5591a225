-- ===== src/Shell/Truth.antt =====
-- `autobuild_bool` of native/bashinterface.cpp and `ab_bool` of native/abnativefunctions.cpp.
pub mod Words
use autobuild.Base.{
  ℕ, Bool, true, false, ◌&&◌, List, [], ◌∷◌, ◌==◌, if◌then◌else◌, Option, none, some, Bytes, codes,
  equal, length,
}

-- The `switch` on a text of one character.
unfoldable pub letter : ℕ → ℕ
letter c =
    if c == b'0'
    then 0
    else if c == b'n'
    then 0
    else if c == b'N'
    then 0
    else if c == b'f'
    then 0
    else if c == b'F'
    then 0
    else if c == b'1'
    then 1
    else if c == b'y'
    then 1
    else if c == b'Y'
    then 1
    else if c == b't'
    then 1
    else if c == b'T'
    then 1
    else 2

unfoldable pub word : Bytes → ℕ
word value =
    if length value == 5 && equal value (codes "false")
    then 0
    else if length value == 4 && equal value (codes "true")
    then 1
    else if length value == 3 && equal value (codes "yes")
    then 1
    else if length value == 2 && equal value (codes "no")
    then 0
    else 2

-- 0 is false, 1 is true, and 2 is neither.
unfoldable pub autobuild_bool : Bytes → ℕ
autobuild_bool [] = word []
autobuild_bool (c ∷ []) = letter c
autobuild_bool (c ∷ d ∷ cs) = word (c ∷ d ∷ cs)

-- The builtin, on its first argument: the other way round, as bash has it.
unfoldable pub ab_bool : Option Bytes → ℕ
ab_bool none = 2
ab_bool (some argv1) =
    let result = autobuild_bool argv1 in if result == 0 then 1 else if result == 1 then 0 else 2
