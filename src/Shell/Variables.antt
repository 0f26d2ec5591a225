-- ===== src/Shell/Variables.antt =====
-- `autobuild_copy_variable` and `autobuild_get_variable_with_suffix` of native/bashinterface.cpp,
-- and `arch_loadvar_inner` of native/abnativefunctions.cpp.
pub mod Conflict
pub mod Suffix
use autobuild.Base.{
  ℕ, Bool, true, false, not, ◌&&◌, ◌||◌, List, [], ◌∷◌, ◌++◌, map, ltb, leb, ◌-◌, if◌then◌else◌,
  Option, none, some, ◌>>=◌, ◌≡◌, Bytes, codes, get_elem?,
}
use autobuild.Shell.{Value, null, text, cells, table, Var}

-- What the code uses of bash's variables. The functions that make a variable also give it, as it
-- is then; `set_value` is an assignment to `dst->value` for the variable of that name, and
-- `declare_reference` is the builtin `declare -n`.
pub record Bash {ℓ} (S : Type ℓ) : Type ℓ where
  pub find_variable : Bytes → S → Option Var
  pub make_new_array_variable : Bytes → S → S × Var
  pub bind_variable : Bytes → Bytes → S → S × Var
  pub set_value : Bytes → Value → S → S
  pub declare_reference : Bytes → Bytes → S → S

abbrev same_bool : Bool → Bool → Bool
same_bool true b = b
same_bool false b = not b

-- The comparison under `att_type_mask`.
unfoldable pub same_types : Var → Var → Bool
same_types src dst =
    same_bool src.is_array dst.is_array
    && same_bool src.is_function dst.is_function
    && same_bool src.is_integer dst.is_integer
    && same_bool src.is_assoc dst.is_assoc

-- `std::string{…}` and `strdup` of a value.
abbrev pub text_or_fault : Value → Option Bytes
text_or_fault (text s) = some s
text_or_fault null = none
text_or_fault (cells xs) = none
text_or_fault (table xs) = none

module _ {ℓ} {S : Type ℓ} (bash : Bash S) where
  -- The variable of the destination's name, which is made if there is none.
  unfoldable pub destination : Var → Bytes → S → S × Var
  destination src dst_name s = elim (bash.find_variable dst_name s) [
    | some dst ↦ (s, dst)
    | none ↦
        if src.is_array
        then bash.make_new_array_variable dst_name s
        else bash.bind_variable dst_name src.name s
  ]

  -- The Boolean tells whether a variable is returned; `none` is `strdup` of a null pointer.
  unfoldable pub autobuild_copy_variable : Var → Bytes → Bool → S → Option (S × Bool)
  autobuild_copy_variable src dst_name reference s =
      let (t, dst) = destination src dst_name s in
      if not (same_types src dst)
      then some (t, false)
      else if src.is_array || src.is_assoc
      then some (bash.set_value dst.name src.value t, true)
      else if reference
      then some (bash.declare_reference dst_name src.name t, true)
      else elim (text_or_fault src.value) [
        | none ↦ none
        | some value ↦ some (bash.set_value dst.name (text value) t, true)
      ]

  unfoldable pub autobuild_copy_variable_value : Bytes → Bytes → S → Option (S × ℕ)
  autobuild_copy_variable_value src_name dst_name s = elim (bash.find_variable src_name s) [
    | none ↦ some (s, 1)
    | some src ↦ autobuild_copy_variable src dst_name true s >>= λ (t, copied).
        some (t, if copied then 0 else 1)
  ]

  -- The loop over the aliases; `is_first` is `it == aliases.begin()`.
  unfoldable pub suffix_loop : Bool → Bool → Bytes → List Bytes → S → Option (S × ℕ)
  suffix_loop is_first found name [] s = some (s, 0)
  suffix_loop is_first found name (suffix ∷ aliases) s =
      elim (bash.find_variable (name ++ (codes "__" ++ suffix)) s) [
        | none ↦ suffix_loop false found name aliases s
        | some target ↦
            if found
            then some (s, 1)
            else autobuild_copy_variable target name true s >>= λ (t, copied).
                if is_first then some (t, 0) else suffix_loop false true name aliases t
      ]

  unfoldable pub autobuild_get_variable_with_suffix : Bytes → List Bytes → S → Option (S × ℕ)
  autobuild_get_variable_with_suffix name aliases s = suffix_loop true false name aliases s

-- `string_to_uppercase`.
abbrev pub to_upper : ℕ → ℕ
to_upper c = if leb b'a' c && leb c b'z' then c - 32 else c

unfoldable pub string_to_uppercase : Bytes → Bytes
string_to_uppercase s = map to_upper s

-- What `arch_loadvar_inner` reports: nothing, or the two suffixes in the message on a conflict.
pub data Report : Type 0 where
  quiet : Report
  refuses : Bytes → Bytes → Report

module _ {ℓ} {S : Type ℓ} (bash : Bash S) where
  -- `aliases`: the architecture, and then its groups. `none` inside is an early return.
  unfoldable pub loadvar_aliases : S → Option (Option (List Bytes))
  loadvar_aliases s = elim (bash.find_variable (codes "ARCH") s) [
    | none ↦ some none
    | some arch ↦
        if arch.is_array then some none else elim (bash.find_variable (codes "ABHOST_GROUP") s) [
          | none ↦ some none
          | some groups ↦
              if not groups.is_array then some none else elim (text_or_fault arch.value) [
                | none ↦ none
                | some a ↦ elim groups.value [
                  | cells gs ↦ some (some (string_to_uppercase a ∷ map string_to_uppercase gs))
                  | null ↦ none
                  | text t ↦ none
                  | table xs ↦ none
                ]
              ]
        ]
  ]

  -- The message takes `aliases[2]` and `aliases[1]`: `none` if they are out of bounds.
  unfoldable pub conflict : List Bytes → S → Option (S × ℕ × Report)
  conflict aliases s = elim (get_elem? aliases 2) [
    | none ↦ none
    | some second ↦ elim (get_elem? aliases 1) [
      | none ↦ none
      | some first ↦ some (s, 1, refuses second first)
    ]
  ]

  unfoldable pub arch_loadvar_inner : Bytes → S → Option (S × ℕ × Report)
  arch_loadvar_inner var_name s = elim (loadvar_aliases s) [
    | none ↦ none
    | some none ↦ some (s, 1, quiet)
    | some (some aliases) ↦
        autobuild_get_variable_with_suffix bash var_name aliases s >>= λ (t, result).
        if ltb 0 result then conflict aliases t else some (t, 0, quiet)
  ]
