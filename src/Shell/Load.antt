-- ===== src/Shell/Load.antt =====
-- The builtins of native/abnativefunctions.cpp that look for a file of the package, load it, and load
-- variables: `arch_findfile`, `arch_loadfile_strict`, `arch_loadfile`, `arch_loaddefines`,
-- `arch_loadvar` and `abcopyvar`.
pub mod Defines
use autobuild.Base.{
  ℕ, Bool, true, false, ◌==◌, List, [], ◌∷◌, if◌then◌else◌, Option, none, some, ◌>>=◌, Bytes, codes,
}
use autobuild.Elf.Builtin.{ex_badusage}
use autobuild.JsonData.{jsondata_get_exported_vars}
use autobuild.Shell.Arch.{get_self_path}
use autobuild.Shell.Find.{Found, not_found, arch_findfile_inner}
use autobuild.Shell.Variables.{Bash, Report, arch_loadvar_inner, autobuild_copy_variable_value}
use autobuild.Shell.Words.{WordList, get_argv1}

-- The loop over the options; `none` is the early return.
unfoldable pub take_options : Bool → List ℕ → Option Bool
take_options stage2_aware [] = some stage2_aware
take_options stage2_aware (opt ∷ opts) =
    let rest = take_options true opts in if opt == b'2' then rest else none

-- What is left of a builtin: the shell, the status, the warnings on files, and what was reported
-- on variables.
pub record Loaded {ℓ} (S : Type ℓ) : Type ℓ where
  pub shell : S
  pub status : ℕ
  pub warnings : List Bytes
  pub reports : List Report

abbrev pub returns {ℓ} : {S : Type ℓ} → S → ℕ → Loaded S
returns s status = record { shell = s; status = status; warnings = []; reports = [] }

module _ {ℓ} {S : Type ℓ} (bash : Bash S) where
  -- The loop over the exported variables, whose statuses are not looked at.
  unfoldable pub load_exported : List Bytes → S → Option (S × List Report)
  load_exported [] s = some (s, [])
  load_exported (var ∷ vars) s = arch_loadvar_inner bash var s >>= λ (t, status, report).
      load_exported vars t >>= λ (u, reports). some (u, report ∷ reports)

  unfoldable pub arch_loadvar : WordList → S → Option (Loaded S)
  arch_loadvar list s = elim (get_argv1 list) [
    | none ↦ some (returns s 0)
    | some name ↦ arch_loadvar_inner bash name s >>= λ (t, status, report).
        some (record (returns t 0) { reports = report ∷ [] })
  ]

  unfoldable pub abcopyvar : WordList → S → Option (S × ℕ)
  abcopyvar (some src ∷ some dst ∷ list) s = autobuild_copy_variable_value bash src dst s
  abcopyvar (some src ∷ none ∷ list) s = some (s, 1)
  abcopyvar (some src ∷ []) s = some (s, 1)
  abcopyvar (none ∷ list) s = some (s, 1)
  abcopyvar [] s = some (s, 1)

-- `exists` is `access(…, F_OK) == 0`, `getopt` is `internal_getopt` of bash, taken to its end, and
-- `load` is `autobuild_load_file(…, false)`.
module _ {ℓ} {S : Type ℓ} (bash : Bash S) (exists : Bytes → Bool)
    (getopt : WordList → List ℕ × WordList) (load : Bytes → S → S × ℕ) where
  unfoldable pub find_for : Bytes → Bool → S → Option Found
  find_for path stage2_aware s =
      arch_findfile_inner exists (λ name. bash.find_variable name s) path stage2_aware

  -- `bind` is `bind_variable` with `ASS_FORCE`; `none` is a null pointer.
  unfoldable pub arch_findfile :
      (Bytes → Bytes → S → Option S) → ℕ → WordList → S → Option (Loaded S)
  arch_findfile bind ex_badassign list s =
      let (opts, words) = getopt list in
      elim (take_options false opts) [
        | none ↦ some (returns s 1)
        | some stage2_aware ↦ elim words [
          | [] ↦ some (returns s ex_badusage)
          | word ∷ others ↦ elim word [
            | none ↦ some (returns s ex_badusage)
            | some path ↦ find_for path stage2_aware s >>= λ (filepath, warnings).
                let found = record (returns s 0) { warnings = warnings } in
                if not_found (filepath, warnings)
                then some (record found { status = 127 })
                else elim (get_argv1 others) [
                  | none ↦ some found
                  | some out_varname ↦ elim (bind out_varname filepath s) [
                    | none ↦ some (record found { status = ex_badassign })
                    | some t ↦ some (record found { shell = t })
                  ]
                ]
          ]
        ]
      ]

  unfoldable pub arch_loadfile_strict : WordList → S → Option (Loaded S)
  arch_loadfile_strict list s =
      let (opts, words) = getopt list in
      elim (take_options false opts) [
        | none ↦ some (returns s 1)
        | some stage2_aware ↦ elim (get_argv1 words) [
          | none ↦ some (returns s 1)
          | some path ↦ find_for path stage2_aware s >>= λ (filepath, warnings).
              if not_found (filepath, warnings)
              then some (record (returns s 127) { warnings = warnings })
              else let (t, status) = load filepath s in
                some (record (returns t status) { warnings = warnings })
        ]
      ]

  unfoldable pub arch_loadfile : WordList → S → Option (Loaded S)
  arch_loadfile list s = arch_loadfile_strict list s >>= λ loaded. some (record loaded {
    warnings =
        codes "arch_loadfile is deprecated. Use arch_loadfile_strict instead." ∷ loaded.warnings;
  })

  -- The file is loaded, and then the variables.
  unfoldable pub load_defines : List Bytes → Bool → Bytes → S → Option (Loaded S)
  load_defines exported_vars stage2_aware path s =
      find_for path stage2_aware s >>= λ (filepath, warnings).
      if not_found (filepath, warnings)
      then some (record (returns s 127) { warnings = warnings })
      else let (t, status) = load filepath s in
        if status == 0
        then (load_exported bash exported_vars t >>= λ (u, reports).
            some (record (returns u 0) { warnings = warnings; reports = reports }))
        else some (record (returns t status) { warnings = warnings })

  -- `exports` gives the object in the file under a path, `none` being an exception of the JSON
  -- library.
  unfoldable pub arch_loaddefines :
      (Bytes → Option (List (Bytes × List Bytes))) → WordList → S → Option (Loaded S)
  arch_loaddefines exports list s =
      let (opts, words) = getopt list in
      elim (take_options false opts) [
        | none ↦ some (returns s 1)
        | some stage2_aware ↦ elim (get_argv1 words) [
          | none ↦ some (returns s 1)
          | some path ↦ get_self_path (bash.find_variable (codes "AB") s) >>= λ ab_path.
              elim ab_path [
                | [] ↦ some (returns s 1)
                | c ∷ cs ↦ exports (c ∷ cs) >>= λ exported.
                    load_defines (jsondata_get_exported_vars exported) stage2_aware path s
              ]
        ]
      ]
