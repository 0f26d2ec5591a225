-- ===== src/Pm/Builddep.antt =====
-- `abpm_dump_builddep_req` and `abpm_genver` of native/abnativefunctions.cpp.
pub mod Lines
use autobuild.Base.{
  ℕ, Bool, true, false, List, [], ◌∷◌, ◌++◌, if◌then◌else◌, Option, none, some, Bytes, codes,
  decimal,
}
use autobuild.Pm.{autobuild_to_deb_version}

abbrev pub is_empty : Bytes → Bool
is_empty [] = true
is_empty (c ∷ cs) = false

-- The loop over the words: what is printed, and the status.
unfoldable pub dump_each : List Bytes → Bytes × ℕ
dump_each [] = ([], 0)
dump_each (word ∷ list) =
    let converted = autobuild_to_deb_version word in
    let rest = dump_each list in
    if is_empty converted
    then ([], 1)
    else (codes " " ++ (converted ++ (codes ",\n" ++ rest.0)), rest.1)

-- `random` is the number that the generator gives.
unfoldable pub abpm_dump_builddep_req : ℕ → List Bytes → Bytes × ℕ
abpm_dump_builddep_req random list =
    let dumped = dump_each list in
    (
      (codes "Source: ab4-satdep-" ++ (decimal random ++ codes "\nBuild-Depends:\n")) ++ dumped.0,
      dumped.1,
    )

unfoldable pub abpm_genver : ℕ → List Bytes → Bytes × ℕ
abpm_genver ex_badusage [] = ([], ex_badusage)
abpm_genver ex_badusage (argv1 ∷ list) = (autobuild_to_deb_version argv1, 0)
