-- ===== src/Shell/Variables/Conflict.antt =====
-- What is reported if the variables of two groups are in conflict.
use autobuild.Base.{
  ℕ, ◌≤◌, true, List, [], ◌∷◌, Option, none, some, ◌≡◌, refl, sym, ◌∙◌, arith, Bytes, Option-cases,
  inl, inr, length,
}
use autobuild.Shell.{Var}
use autobuild.Shell.Variables.{
  Bash, autobuild_copy_variable, autobuild_get_variable_with_suffix, loadvar_aliases, conflict,
  arch_loadvar_inner, refuses,
}
use autobuild.Shell.Variables.Suffix.{
  Keeps, count, copies, first_variable, status_of, get_variable_with_suffix-first,
}

module _ {ℓ} {S : Type ℓ} (bash : Bash S) where
  count-le :
      (name : Bytes) (aliases : List Bytes) (s : S) → count bash name aliases s ≤ length aliases
  count-le name [] s = omega arith
  count-le name (suffix ∷ aliases) s = ground (arith, count-le name aliases s)

  copies-status :
      (name : Bytes) (v : Option Var) (status : ℕ) (s t : S)
      → copies bash name v status s ≡ some (t, 1)
      → status ≡ 1
  copies-status name none status s t h = ground arith
  copies-status name (some v) status s t h =
      elim (Option-cases (autobuild_copy_variable bash v name true s)) [
        | inl c ↦ absurd (ground (arith, c))
        | inr ((u, copied), c) ↦ ground (arith, c)
      ]

  three_aliases :
      (name : Bytes) (aliases : List Bytes) (s : S)
      → status_of bash name aliases s ≡ 1
      → 3 ≤ length aliases
  three_aliases name [] s h = absurd (omega arith)
  three_aliases name (arch ∷ groups) s h = ground (arith, count-le name groups s)

  -- On a conflict there are three aliases or more, so the message stays in bounds; it names the
  -- first two groups, whichever the variables are that are in conflict.
  pub arch_loadvar_inner-conflict :
      (keeps : Keeps bash) (name : Bytes) (aliases : List Bytes) (s t : S)
      → loadvar_aliases bash s ≡ some (some aliases)
      → autobuild_get_variable_with_suffix bash name aliases s ≡ some (t, 1)
      → (arch first second : Bytes) × (groups : List Bytes) × (aliases
          ≡ arch ∷ first ∷ second ∷ groups)
        × (arch_loadvar_inner bash name s ≡ some (t, 1, refuses second first))
  unfolding arch_loadvar_inner conflict
  arch_loadvar_inner-conflict keeps name aliases s t a h =
      let long = three_aliases name aliases s (
        copies-status name (first_variable bash name aliases s) (status_of bash name aliases s) s t
          (sym (get_variable_with_suffix-first bash keeps name aliases s) ∙ h)) in
      at_least_three aliases refl long
    where
      at_least_three :
          (xs : List Bytes)
          → aliases ≡ xs
          → 3 ≤ length xs
          → (arch first second : Bytes) × (groups : List Bytes) × (aliases
              ≡ arch ∷ first ∷ second ∷ groups)
            × (arch_loadvar_inner bash name s ≡ some (t, 1, refuses second first))
      at_least_three [] e l = absurd (omega arith)
      at_least_three (x ∷ []) e l = absurd (omega arith)
      at_least_three (x ∷ y ∷ []) e l = absurd (omega arith)
      at_least_three (x ∷ y ∷ z ∷ gs) e l = (x, y, z, gs, e, ground (arith, a, h, e))
