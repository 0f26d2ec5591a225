-- ===== src/Shell/Load/Defines.antt =====
-- `arch_loaddefines` of native/abnativefunctions.cpp, against `arch_loadfile_strict`.
use autobuild.Base.{
  ℕ, Bool, ◌==◌, List, ◌∷◌, if◌then◌else◌, Option, some, ◌>>=◌, Bytes, codes, ◌≡◌, arith,
}
use autobuild.JsonData.{jsondata_get_exported_vars}
use autobuild.Shell.Arch.{get_self_path}
use autobuild.Shell.Variables.{Bash}
use autobuild.Shell.Words.{WordList}
use autobuild.Shell.Load.{
  Loaded, load_exported, load_defines, arch_loadfile_strict, arch_loaddefines,
}

module _ {ℓ} {S : Type ℓ} (bash : Bash S) (exists : Bytes → Bool)
    (getopt : WordList → List ℕ × WordList) (load : Bytes → S → S × ℕ) where
  -- What follows the loading of the file: the variables, if it has succeeded.
  unfoldable pub with_exported : List Bytes → Loaded S → Option (Loaded S)
  with_exported vars loaded =
      if loaded.status == 0
      then (load_exported bash vars loaded.shell >>= λ (u, reports).
          some (record loaded { shell = u; reports = reports }))
      else some loaded

  pub arch_loaddefines-loadfile_strict :
      (exports : Bytes → Option (List (Bytes × List Bytes))) (list : WordList) (s : S) (c : ℕ)
      (cs : Bytes) (exported : List (Bytes × List Bytes))
      → get_self_path (bash.find_variable (codes "AB") s) ≡ some (c ∷ cs)
      → exports (c ∷ cs) ≡ some exported
      → arch_loaddefines bash exists getopt load exports list s ≡ (
          arch_loadfile_strict bash exists getopt load list s
          >>= with_exported (jsondata_get_exported_vars exported))
  unfolding arch_loaddefines arch_loadfile_strict with_exported load_defines
  arch_loaddefines-loadfile_strict exports list s c cs exported has reads =
      ground (arith, has, reads)
