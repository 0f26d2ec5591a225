-- ===== src/Shell/Directory/Order.antt =====
-- The order in which the files of a directory are loaded.
use mathlib.Core.List.{Perm, foldr, is_set}
use native.Mathlib.Nat.{ℕ_set}
use mathlib.Core.List.Perm
use autobuild.Base.{
  ℕ, Bool, true, false, List, [], ◌∷◌, ◌≡◌, refl, sym, ap, ◌∙◌, arith, if◌then◌else◌, Bytes,
}
use autobuild.Shell.Directory.{
  less, insert_sorted, sort, regular_files, load_each, autobuild_load_all_from_directory,
}

less_asym : (s t : Bytes) → less s t ≡ true → less t s ≡ false
unfolding less
less_asym [] [] h = absurd cc
less_asym [] (d ∷ ds) h = refl
less_asym (c ∷ cs) [] h = absurd cc
less_asym (c ∷ cs) (d ∷ ds) h = ground (arith, less_asym cs ds)

less_total : (s t : Bytes) → less s t ≡ false → less t s ≡ false → s ≡ t
unfolding less
less_total [] [] h k = refl
less_total [] (d ∷ ds) h k = absurd cc
less_total (c ∷ cs) [] h k = absurd cc
less_total (c ∷ cs) (d ∷ ds) h k = ground (arith, less_total cs ds)

-- What is less than one text and not less than another lies between them.
less_between : (s t u : Bytes) → less s t ≡ true → less s u ≡ false → less u t ≡ true
unfolding less
less_between s [] u h k = absurd (ground arith)
less_between [] (d ∷ ds) [] h k = refl
less_between [] (d ∷ ds) (e ∷ es) h k = absurd cc
less_between (c ∷ cs) (d ∷ ds) [] h k = refl
less_between (c ∷ cs) (d ∷ ds) (e ∷ es) h k = ground (arith, less_between cs ds es)

insert_sorted_swap :
    (a b : Bytes) (xs : List Bytes)
    → insert_sorted a (insert_sorted b xs) ≡ insert_sorted b (insert_sorted a xs)
unfolding insert_sorted
insert_sorted_swap a b [] = ground (arith, less_asym a b, less_total a b)
insert_sorted_swap a b (x ∷ xs) = ground (
  arith,
  insert_sorted_swap a b xs,
  less_asym a b,
  less_total a b,
  less_between x a b,
  less_between x b a,
)

-- One entry of the directory, put in its place.
place : Bytes × Bool → List Bytes → List Bytes
place (path, is_regular) files = if is_regular then insert_sorted path files else files

place_swap :
    (a b : Bytes × Bool) (files : List Bytes) → place a (place b files) ≡ place b (place a files)
unfolding place
place_swap (p, true) (q, true) files = insert_sorted_swap p q files
place_swap (p, true) (q, false) files = refl
place_swap (p, false) (q, true) files = refl
place_swap (p, false) (q, false) files = refl

sort-regular_files :
    (entries : List (Bytes × Bool)) → sort (regular_files entries) ≡ foldr place [] entries
unfolding sort regular_files place
sort-regular_files [] = refl
sort-regular_files ((path, true) ∷ entries) = ap (insert_sorted path) (sort-regular_files entries)
sort-regular_files ((path, false) ∷ entries) = sort-regular_files entries

-- The shell and the status after the files of a directory do not depend on the order in which the
-- file system lists them.
pub load_all-Perm {ℓ} :
    {S : Type ℓ} (load : Bytes → S → S × ℕ) (entries entries' : List (Bytes × Bool)) (s : S)
    → Perm entries entries'
    → autobuild_load_all_from_directory load entries s
      ≡ autobuild_load_all_from_directory load entries' s
unfolding autobuild_load_all_from_directory
load_all-Perm load entries entries' s p =
    ap (λ files. load_each load files s)
      (sort-regular_files entries
        ∙ Perm.foldr-eq (is_set (is_set ℕ_set)) place place_swap p []
        ∙ sym (sort-regular_files entries'))
