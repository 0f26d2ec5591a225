-- ===== src/Shell/Find.antt =====
-- `arch_findfile_maybe_stage2` and `arch_findfile_inner` of native/abnativefunctions.cpp.
pub mod Candidates
use autobuild.Base.{
  ℕ, Bool, true, false, not, ◌&&◌, List, [], ◌∷◌, ◌++◌, ◌==◌, if◌then◌else◌, Option, none, some,
  ◌>>=◌, Bytes, codes,
}
use autobuild.Shell.{Value, null, text, cells, table, Var}
use autobuild.Shell.Truth.{autobuild_bool}

-- A path, which is empty if nothing was found, and the warnings.
abbrev pub Found : Type 0
Found = Bytes × List Bytes

-- A variable's value where a `char *` is read: a null pointer is the inner `none`, and the outer
-- one is an array read as a text.
abbrev pub text_of : Value → Option (Option Bytes)
text_of null = some none
text_of (text s) = some (some s)
text_of (cells xs) = none
text_of (table xs) = none

-- `result.empty()`.
abbrev pub not_found : Found → Bool
not_found ([], warnings) = true
not_found (c ∷ cs, warnings) = false

abbrev pub or_else : Found → Found → Found
or_else found rest = if not_found found then rest else found

-- `exists` is `access(…, F_OK) == 0`, and `find_variable` is bash's.
module _ (exists : Bytes → Bool) (find_variable : Bytes → Option Var) where
  unfoldable pub maybe_stage2 : Bytes → Bool → Found
  maybe_stage2 path is_stage2 =
      if is_stage2 && exists (path ++ codes ".stage2")
      then (path ++ codes ".stage2", [])
      else if exists path
      then (
        path,
        if is_stage2
            then (codes "Unable to find stage2 "
                ++ (path ++ codes ", falling back to normal defines ..."))
              ∷ []
            else [],
      )
      else ([], [])

  abbrev pub defines_path : Bytes
  defines_path = codes "autobuild/"

  -- `stage2_v ? autobuild_bool(stage2_v->value) : false`, as a condition.
  unfoldable pub stage2 : Option Bool
  stage2 = elim (find_variable (codes "ABSTAGE2")) [
    | none ↦ some false
    | some v ↦ elim (text_of v.value) [
      | some (some s) ↦ some (not (autobuild_bool s == 0))
      | some none ↦ none
      | none ↦ none
    ]
  ]

  -- The loop over the groups, and what stands behind it.
  unfoldable pub find_in_groups : Bytes → Bool → List Bytes → Found
  find_in_groups path is_stage2 [] = maybe_stage2 (defines_path ++ path) is_stage2
  find_in_groups path is_stage2 (group ∷ groups) =
      let rest = find_in_groups path is_stage2 groups in
      or_else (maybe_stage2 (defines_path ++ (group ++ (codes "/" ++ path))) is_stage2) rest

  unfoldable pub find_for_group : Bytes → Bool → Option Found
  find_for_group path is_stage2 = elim (find_variable (codes "ABHOST_GROUP")) [
    | none ↦ some ([], [])
    | some v ↦ if not v.is_array then some ([], []) else elim v.value [
      | cells groups ↦ some (find_in_groups path is_stage2 groups)
      | null ↦ none
      | text s ↦ none
      | table xs ↦ none
    ]
  ]

  unfoldable pub find_for_host : Bytes → Bool → Option Found
  find_for_host path is_stage2 = elim (find_variable (codes "ABHOST")) [
    | none ↦ find_for_group path is_stage2
    | some v ↦ elim (text_of v.value) [
      | none ↦ none
      | some none ↦ find_for_group path is_stage2
      | some (some host) ↦
          let found = maybe_stage2 (defines_path ++ (host ++ (codes "/" ++ path))) is_stage2 in
          if not_found found then find_for_group path is_stage2 else some found
    ]
  ]

  -- `none` is a read through a null pointer or of an array as a text.
  unfoldable pub arch_findfile_inner : Bytes → Bool → Option Found
  arch_findfile_inner path stage2_aware =
      if stage2_aware
      then stage2 >>= (λ is_stage2. find_for_host path is_stage2)
      else find_for_host path false
