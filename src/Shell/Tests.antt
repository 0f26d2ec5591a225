-- ===== src/Shell/Tests.antt =====
-- A shell whose variables are a list, and the statements about variables and files at it.
use mathlib.Core.List.Perm
use autobuild.Base.{
  ℕ, Bool, true, false, ◌||◌, List, [], ◌∷◌, ◌≡◌, ◌≢◌, refl, arith, if◌then◌else◌, Option, none,
  some, ◌>>=◌, Bytes, codes, equal, equal_iff,
}
use autobuild.Shell.{Value, text, cells, Var}
use autobuild.Shell.Directory.{autobuild_load_all_from_directory}
use autobuild.Shell.Directory.Order.{load_all-Perm}
use autobuild.Shell.Find.{arch_findfile_inner, stage2}
use autobuild.Shell.Find.Candidates.{places, first_existing, arch_findfile_inner-first}
use autobuild.Shell.Load.{arch_loaddefines, arch_loadfile_strict}
use autobuild.Shell.Load.Defines.{with_exported, arch_loaddefines-loadfile_strict}
use autobuild.Shell.Words.{WordList}
use autobuild.JsonData.{jsondata_get_exported_vars}
use autobuild.Shell.Arch.{get_self_path}
use autobuild.Shell.Variables.{
  Bash, autobuild_copy_variable, destination, same_types, suffix_loop,
  autobuild_get_variable_with_suffix, loadvar_aliases, string_to_uppercase, arch_loadvar_inner,
  refuses,
}
use autobuild.Shell.Variables.Suffix.{
  Keeps, is_some, copies, first_variable, status_of, get_variable_with_suffix-first,
}
use autobuild.Shell.Variables.Conflict.{arch_loadvar_inner-conflict}

-- Loading a file notes its name, and a file `b` fails.
abbrev note_file : Bytes → List Bytes → List Bytes × ℕ
note_file file loaded = (file ∷ loaded, if equal file (codes "b") then 7 else 0)

load_all-Perm_example :
    autobuild_load_all_from_directory note_file
      ((codes "b", true) ∷ (codes "a", true) ∷ (codes "c", true) ∷ [])
      []
    ≡ autobuild_load_all_from_directory note_file
        ((codes "a", true) ∷ (codes "b", true) ∷ (codes "c", true) ∷ [])
        []
load_all-Perm_example =
    load_all-Perm note_file ((codes "b", true) ∷ (codes "a", true) ∷ (codes "c", true) ∷ [])
      ((codes "a", true) ∷ (codes "b", true) ∷ (codes "c", true) ∷ []) []
      (Perm.swap (codes "a", true) (codes "b", true) ((codes "c", true) ∷ []))

abbrev Vars : Type 0
Vars = List (Bytes × Var)

abbrev scalar : Bytes → Bytes → Var
scalar name value = record {
  name = name;
  is_array = false;
  is_function = false;
  is_integer = false;
  is_assoc = false;
  value = text value;
}

abbrev array : Bytes → List Bytes → Var
array name values = record (scalar name []) { is_array = true; value = cells values }

lookup : Bytes → Vars → Option Var
lookup name [] = none
lookup name ((other, v) ∷ vars) =
    let rest = lookup name vars in if equal other name then some v else rest

assign : Bytes → Value → Vars → Vars
assign name value [] = []
assign name value ((other, v) ∷ vars) =
    let rest = assign name value vars in
    if equal other name then (other, record v { value = value }) ∷ vars else (other, v) ∷ rest

abbrev listed : Bash Vars
listed = record {
  find_variable = lookup;
  make_new_array_variable = λ name vars. ((name, array name []) ∷ vars, array name []);
  bind_variable = λ name value vars. ((name, scalar name value) ∷ vars, scalar name value);
  set_value = assign;
  declare_reference = λ name target vars. (name, scalar name target) ∷ vars;
}

lookup-other :
    (name other : Bytes) (v : Var) (vars : Vars)
    → other ≢ name
    → lookup other ((name, v) ∷ vars) ≡ lookup other vars
unfolding lookup
lookup-other name other v vars n = ground (arith, equal_iff name other)

lookup-assign :
    (name : Bytes) (value : Value) (other : Bytes) (vars : Vars)
    → is_some (lookup other (assign name value vars)) ≡ is_some (lookup other vars)
unfolding lookup assign
lookup-assign name value other [] = refl
lookup-assign name value other ((n, v) ∷ vars) = ground (arith, lookup-assign name value other vars)

listed-Keeps : Keeps listed
listed-Keeps = record {
  array_keeps = λ made other vars n. rw (lookup-other made other (array made []) vars n) refl;
  bind_keeps =
      λ made value other vars n. rw (lookup-other made other (scalar made value) vars n) refl;
  reference_keeps =
      λ made target other vars n. rw (lookup-other made other (scalar made target) vars n) refl;
  value_keeps = lookup-assign;
}

-- A variable for each of two groups.
abbrev in_conflict : Vars
in_conflict =
    (codes "ARCH", scalar (codes "ARCH") (codes "amd64"))
    ∷ (codes "ABHOST_GROUP", array (codes "ABHOST_GROUP") (codes "mainline" ∷ codes "simd" ∷ []))
    ∷ (codes "X__MAINLINE", scalar (codes "X__MAINLINE") (codes "1"))
    ∷ (codes "X__SIMD", scalar (codes "X__SIMD") (codes "2"))
    ∷ []

abbrev aliases : List Bytes
aliases = codes "AMD64" ∷ codes "MAINLINE" ∷ codes "SIMD" ∷ []

get_variable_with_suffix-first_example :
    autobuild_get_variable_with_suffix listed (codes "X") aliases in_conflict
    ≡ copies listed
        (codes "X")
        (first_variable listed (codes "X") aliases in_conflict)
        (status_of listed (codes "X") aliases in_conflict)
        in_conflict
get_variable_with_suffix-first_example =
    get_variable_with_suffix-first listed listed-Keeps (codes "X") aliases in_conflict

abbrev after_conflict : Vars
after_conflict =
    (codes "X", scalar (codes "X") (codes "X__MAINLINE"))
    ∷ (codes "X", scalar (codes "X") (codes "X__MAINLINE"))
    ∷ in_conflict

known_aliases : loadvar_aliases listed in_conflict ≡ some (some aliases)
unfolding loadvar_aliases lookup equal string_to_uppercase
known_aliases = refl

conflict_found :
    autobuild_get_variable_with_suffix listed (codes "X") aliases in_conflict
    ≡ some (after_conflict, 1)
unfolding autobuild_get_variable_with_suffix suffix_loop lookup equal autobuild_copy_variable
    destination same_types
conflict_found = refl

arch_loadvar_inner-conflict_example :
    (arch first second : Bytes) × (groups : List Bytes) × (aliases ≡ arch ∷ first ∷ second ∷ groups)
    × (arch_loadvar_inner listed (codes "X") in_conflict
        ≡ some (after_conflict, 1, refuses second first))
arch_loadvar_inner-conflict_example =
    arch_loadvar_inner-conflict listed listed-Keeps (codes "X") aliases in_conflict after_conflict
      known_aliases conflict_found

-- A package with a file for one group and one beside it.
abbrev package_files : Bytes → Bool
package_files file =
    equal file (codes "autobuild/simd/defines") || equal file (codes "autobuild/defines")

abbrev package_host : Bytes → Option Var
package_host name =
    if equal name (codes "ABHOST")
    then some (scalar name (codes "amd64"))
    else if equal name (codes "ABHOST_GROUP")
    then some (array name (codes "simd" ∷ []))
    else none

arch_findfile_inner-first_example :
    (warnings : List Bytes) × (arch_findfile_inner package_files package_host (codes "defines") true
      ≡ some (
        first_existing package_files
            (places false (codes "defines") (codes "amd64" ∷ codes "simd" ∷ [])),
        warnings,
      ))
unfolding equal stage2
arch_findfile_inner-first_example =
    arch_findfile_inner-first package_files package_host (codes "defines") (codes "amd64")
      (codes "simd" ∷ []) (scalar (codes "ABHOST") (codes "amd64"))
      (array (codes "ABHOST_GROUP") (codes "simd" ∷ [])) true false refl refl refl refl refl refl

-- A shell with the path of autobuild and the host; loading a file defines two variables.
abbrev package_vars : Vars
package_vars =
    (codes "AB", scalar (codes "AB") (codes "/usr/lib/autobuild4"))
    ∷ (codes "ABHOST", scalar (codes "ABHOST") (codes "amd64"))
    ∷ (codes "ARCH", scalar (codes "ARCH") (codes "amd64"))
    ∷ (codes "ABHOST_GROUP", array (codes "ABHOST_GROUP") (codes "simd" ∷ []))
    ∷ []

abbrev load_package : Bytes → Vars → Vars × ℕ
load_package file vars =
    ((codes "PKGDEP__AMD64", scalar (codes "PKGDEP__AMD64") (codes "glibc")) ∷ vars, 0)

abbrev no_options : WordList → List ℕ × WordList
no_options list = ([], list)

abbrev package_exports : List (Bytes × List Bytes)
package_exports = (codes "pkg", codes "PKGDEP" ∷ codes "PKGDES" ∷ []) ∷ []

arch_loaddefines-loadfile_strict_example :
    arch_loaddefines listed package_files no_options load_package
      (λ path. some package_exports)
      (some (codes "defines") ∷ [])
      package_vars
    ≡ (arch_loadfile_strict listed package_files no_options load_package
          (some (codes "defines") ∷ [])
          package_vars
        >>= with_exported listed package_files no_options load_package
            (jsondata_get_exported_vars package_exports))
unfolding get_self_path lookup equal
arch_loaddefines-loadfile_strict_example =
    arch_loaddefines-loadfile_strict listed package_files no_options load_package
      (λ path. some package_exports) (some (codes "defines") ∷ []) package_vars b'/'
      (codes "usr/lib/autobuild4") package_exports refl refl
