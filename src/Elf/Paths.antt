-- ===== src/Elf/Paths.antt =====
-- The paths of native/abnativeelf.cpp. A path is its bytes; `fs::path` and `basename` belong to
-- the C++ and C libraries.
pub mod UsrLib
pub mod DebugFile
use autobuild.Base.{
  ℕ, ◌+◌, ◌-◌, Bool, true, false, ◌||◌, List, [], ◌∷◌, ◌++◌, ltb, leb, ◌==◌, if◌then◌else◌, Option,
  none, some, Bytes, codes, equal, length, take, drop, substr,
}

unfoldable pub has_slash : Bytes → Bool
has_slash [] = false
has_slash (c ∷ cs) = c == b'/' || has_slash cs

-- `basename`: what stands behind the last slash.
unfoldable pub base_name : Bytes → Bytes
base_name [] = []
base_name (c ∷ cs) =
    let rest = base_name cs in if has_slash cs then rest else if c == b'/' then cs else c ∷ cs

abbrev pub is_absolute : Bytes → Bool
is_absolute [] = false
is_absolute (c ∷ cs) = c == b'/'

-- `p /= q`: an absolute path takes the place of what was there.
unfoldable pub join : Bytes → Bytes → Bytes
join [] q = q
join (c ∷ cs) q =
    if is_absolute q
    then q
    else if equal (drop (length cs) (c ∷ cs)) (codes "/")
    then (c ∷ cs) ++ q
    else (c ∷ cs) ++ (b'/' ∷ q)

-- `none` is the exception of `substr` on a text shorter than two characters.
unfoldable pub get_filename_from_build_id : Bytes → Bytes → Option Bytes
get_filename_from_build_id build_id dst_path =
    if ltb (length build_id) 2
    then none
    else some (
        join (join dst_path (codes "usr/lib/debug/.build-id/" ++ take 2 build_id))
          (drop 2 build_id ++ codes ".debug"))

-- `base_path` is a pointer, so `sizeof` gives its size and not the nine characters of the text.
abbrev pub base_len : ℕ
base_len = 8

-- The test whether a file lies in a directory `/usr/lib`. The offset is -1 if what stands before
-- the name is as long as `base_len`: `none` is the read before the start of the text.
unfoldable pub in_usr_lib : Bytes → Option Bool
in_usr_lib src_path =
    let filename_len = length (base_name src_path) in
    let src_len = length src_path in
    if leb (base_len + filename_len) src_len
    then if src_len == base_len + filename_len
      then none
      else some (
          equal (substr src_path (src_len - base_len - filename_len - 1) base_len)
            (take base_len (codes "/usr/lib/")))
    else some false
