-- ===== src/Serialize/Variables.antt =====
-- Variables that `autobuild_serialized_variables` prints and `autobuild_deserialize_variable`
-- reads again, of native/abserialize.cpp.
use autobuild.Base.{
  true, false, List, [], ◌∷◌, if◌then◌else◌, Option, some, some-injective, bind-eq-some, Bytes,
  equal, equal_iff, contains, ◌≡◌, ◌⊎◌, inl, inr, refl, ap, sym, ◌∙◌, arith, Bool-cases,
}
use autobuild.Shell.{text, Var}
use autobuild.Serialize.{
  JsonLibrary, Binder, string, shell_var_from_json, autobuild_deserialize_variable,
  json_from_shell_var, serialize_each, autobuild_serialized_variables,
}
use autobuild.Serialize.Path.{key, is_writable, print_path, walk, run_query-path}

-- What the library says of objects and of texts.
pub record IsStandard {D : Type 0} (json : JsonLibrary D) : Type 0 where
  pub at_key-set_key :
      (name other : Bytes) (value j : D)
      → json.at_key (json.set_key other value j) name
        ≡ (if equal other name then some value else json.at_key j name)
  pub kind-from_text : (s : Bytes) → json.kind (json.from_text s) ≡ string s

-- A variable that is no function, no array and no associative array, and has a text.
pub record IsText (var : Var) (value : Bytes) : Type 0 where
  pub function : var.is_function ≡ false
  pub array : var.is_array ≡ false
  pub assoc : var.is_assoc ≡ false
  pub holds : var.value ≡ text value

module _ {D : Type 0} (json : JsonLibrary D) (standard : IsStandard json)
    (make_command_string : Var → Bytes) (find_variable : Bytes → Option Var) where
  serialize_each-at_key :
      (name : Bytes) (value : D) (names : List Bytes) (old j : D)
      → json_from_shell_var json make_command_string (find_variable name) ≡ some value
      → serialize_each json make_command_string find_variable names old ≡ some j
      → (contains names name ≡ true) ⊎ (json.at_key old name ≡ some value)
      → json.at_key j name ≡ some value
  unfolding serialize_each contains
  serialize_each-at_key name value [] old j has same (inl member) = cc
  serialize_each-at_key name value [] old j has same (inr kept) =
      ap (λ d. json.at_key d name) (sym (some-injective old j same)) ∙ kept
  serialize_each-at_key name value (other ∷ names) old j has same member =
      let (first, read, rest) =
        bind-eq-some (json_from_shell_var json make_command_string (find_variable other)) _ same in
      let set = standard.at_key-set_key name other first old in
      let next = serialize_each-at_key name value names (json.set_key other first old) j has rest in
      elim (Bool-cases (equal other name)) [
        | inl hit ↦
            let here : other ≡ name = (equal_iff other name).0 hit in
            let found_value : some first ≡ some value =
              sym read
              ∙ ap (λ n. json_from_shell_var json make_command_string (find_variable n)) here
              ∙ has in
            next (inr (set ∙ rw hit found_value))
        | inr miss ↦ elim member [
          | inl later ↦ next (inl (rw miss at later))
          | inr kept ↦ next (inr (set ∙ rw miss kept))
        ]
      ]

  json_from_shell_var-text :
      (var : Var) (value : Bytes)
      → IsText var value
      → json_from_shell_var json make_command_string (some var) ≡ some (json.from_text value)
  unfolding json_from_shell_var
  json_from_shell_var-text var value is_text = elim (Bool-cases var.is_integer) [
    | inl whole ↦ rw (whole, is_text.holds) refl
    | inr other ↦ rw (other, is_text.function, is_text.array, is_text.assoc, is_text.holds) refl
  ]

  -- A variable with a text that is printed among others is stored with the same text, if the
  -- library parses what it prints and the variable's name can be written in a query.
  pub serialized_variables-deserialize {ℓ} :
      {S : Type ℓ}
      → (bash : Binder S) (name value target : Bytes) (var : Var) (names : List Bytes) (j : D)
        (s : S)
      → find_variable name ≡ some var
      → IsText var value
      → contains names name ≡ true
      → serialize_each json make_command_string find_variable names json.null_value ≡ some j
      → json.parse (json.dump j) ≡ some j
      → is_writable (key name) ≡ true
      → (content : Bytes) × (autobuild_serialized_variables json make_command_string find_variable
            names
          ≡ some content)
        × (autobuild_deserialize_variable json bash content
              (print_path (key name ∷ []))
              target
              false
              s
            ≡ (bash.set_text target value (bash.bind_variable target s), 0))
  unfolding autobuild_serialized_variables autobuild_deserialize_variable shell_var_from_json walk
  serialized_variables-deserialize bash name value target var names j s has is_text member built
        parsed writable =
      let stored =
        ap (json_from_shell_var json make_command_string) has
        ∙ json_from_shell_var-text var value is_text in
      let there =
        serialize_each-at_key name (json.from_text value) names json.null_value j stored built
          (inl member) in
      let path = run_query-path json false (key name ∷ []) j (ground (arith, writable)) in
      (
        json.dump j,
        rw built refl,
        rw
            (
              autobuild_deserialize_variable,
              parsed,
              path,
              there,
              shell_var_from_json,
              standard.kind-from_text value,
            )
            refl,
      )
