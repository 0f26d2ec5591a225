-- ===== src/Serialize/Number.antt =====
-- The numbers that `shell_var_from_json` of native/abserialize.cpp stores.
use autobuild.Base.{
  ◌^◌, Bool, true, ltb, atoi, some, Bytes, ℤ, pos, negsuc, ◌≡◌, ◌↔◌, refl, sym, ap, ◌∙◌,
}
use autobuild.Serialize.{
  JsonLibrary, Binder, integer, found, run_query, shell_var_from_json,
  autobuild_deserialize_variable,
}

-- The numbers of an `int`.
unfoldable pub is_int : ℤ → Bool
is_int (pos n) = ltb n (2 ^ 31)
is_int (negsuc n) = ltb n (2 ^ 31)

-- What is relied on: `get<int>` gives an `int`, which is the number itself if that is one, and bash's
-- `itos` writes an `int` so that it can be read again.
pub record IsNumeric {ℓ} {D : Type 0} {S : Type ℓ} (json : JsonLibrary D) (bash : Binder S)
    : Type ℓ where
  pub narrowed : (z : ℤ) → is_int (json.get_int z) ≡ true
  pub kept : (z : ℤ) → is_int z ≡ true → json.get_int z ≡ z
  pub printed : (z : ℤ) → is_int z ≡ true → atoi (bash.itos z) ≡ z

-- A whole number that a query leads to is stored, with the attribute of integers, as a text that bash
-- reads as an `int`, and as the number itself just if that is an `int`; the status is 0 all the same.
pub deserialize_variable-integer {ℓ} :
    {D : Type 0} {S : Type ℓ}
    → (json : JsonLibrary D) (bash : Binder S) (content query name : Bytes) (allow_failure : Bool)
      (s : S) (data_value result : D) (z : ℤ)
    → IsNumeric json bash
    → json.parse content ≡ some data_value
    → run_query json allow_failure query data_value ≡ found result
    → json.kind result ≡ integer z
    → (text : Bytes) × (autobuild_deserialize_variable json bash content query name allow_failure s
        ≡ (bash.set_integer name (bash.set_text name text (bash.bind_variable name s)), 0))
      × (is_int (atoi text) ≡ true)
      × ((atoi text ≡ z) ↔ (is_int z ≡ true))
unfolding autobuild_deserialize_variable shell_var_from_json
deserialize_variable-integer json bash content query name allow_failure s data_value result z
      numeric parsed led whole =
    let value = json.get_int z in
    let reads = numeric.printed value (numeric.narrowed z) in
    (
      bash.itos value,
      rw (autobuild_deserialize_variable, parsed, led, shell_var_from_json, whole) refl,
      ap is_int reads ∙ numeric.narrowed z,
      (
        λ same. ap is_int (sym same ∙ reads) ∙ numeric.narrowed z,
        λ fits. reads ∙ numeric.kept z fits,
      ),
    )
