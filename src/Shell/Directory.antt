-- ===== src/Shell/Directory.antt =====
-- `autobuild_load_all_from_directory` of native/bashinterface.cpp.
pub mod Order
use mathlib.Core.List.{foldr}
use autobuild.Base.{ℕ, Bool, true, false, List, [], ◌∷◌, ltb, ◌==◌, if◌then◌else◌, Bytes}

-- `operator<` of two byte strings.
unfoldable pub less : Bytes → Bytes → Bool
less s [] = false
less [] (d ∷ ds) = true
less (c ∷ cs) (d ∷ ds) = if ltb c d then true else if c == d then less cs ds else false

-- `std::sort`, of which the code relies on the result alone.
unfoldable pub insert_sorted : Bytes → List Bytes → List Bytes
insert_sorted x [] = x ∷ []
insert_sorted x (y ∷ ys) =
    let rest = insert_sorted x ys in if less y x then y ∷ rest else x ∷ y ∷ ys

unfoldable pub sort : List Bytes → List Bytes
sort xs = foldr insert_sorted [] xs

-- The regular files of a directory, each entry a path and whether it is a regular file.
unfoldable pub regular_files : List (Bytes × Bool) → List Bytes
regular_files [] = []
regular_files ((path, is_regular) ∷ entries) =
    let files = regular_files entries in if is_regular then path ∷ files else files

-- `load` is `autobuild_load_file(…, false)`: what the shell is after the file, and a status.
module _ {ℓ} {S : Type ℓ} (load : Bytes → S → S × ℕ) where
  unfoldable pub load_each : List Bytes → S → S × ℕ
  load_each [] s = (s, 0)
  load_each (file ∷ files) s =
      let (t, status) = load file s in
      let rest = load_each files t in if status == 0 then rest else (t, 1)

  unfoldable pub autobuild_load_all_from_directory : List (Bytes × Bool) → S → S × ℕ
  autobuild_load_all_from_directory entries s = load_each (sort (regular_files entries)) s
