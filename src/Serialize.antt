-- ===== src/Serialize.antt =====
-- The C++ code of native/abserialize.cpp: JSON values that are queried and stored in variables of
-- bash, and variables that are printed as JSON.
pub mod Path
pub mod Number
pub mod Item
pub mod Variables
mod Tests
use autobuild.Base.{
  ℕ, zero, suc, ◌+◌, ◌-◌, ◌%◌, ◌^◌, Bool, true, false, not, ◌&&◌, ◌||◌, List, [], ◌∷◌, ◌++◌, ◌==◌,
  ltb, if◌then◌else◌, Option, none, some, ◌>>=◌, Bytes, codes, substr, length, get_elem?, strtol, ℤ,
  pos, negsuc, decimal,
}
use autobuild.Shell.{Value, null, text, cells, table, Var}

-- What `shell_var_from_json` asks of a value; `other` is an array, an object or a number with a
-- fraction.
pub data Kind : Type 0 where
  null_kind : Kind
  string : Bytes → Kind
  boolean : Bool → Kind
  integer : ℤ → Kind
  other : Kind

-- The JSON library, of whose values `D` is the type. `parse` gives `none` where the library gives
-- a discarded value, and `at_key` and `at_index`, which are `operator[]`, where it throws.
-- `get_int` is `get<int>` of a whole number, and `set_key` is `j[key] = value`.
pub record JsonLibrary (D : Type 0) : Type 0 where
  pub parse : Bytes → Option D
  pub dump : D → Bytes
  pub at_key : D → Bytes → Option D
  pub at_index : D → ℤ → Option D
  pub kind : D → Kind
  pub get_int : ℤ → ℤ
  pub null_value : D
  pub from_text : Bytes → D
  pub from_array : List Bytes → D
  pub from_table : List (Bytes × Bytes) → D
  pub set_key : Bytes → D → D → D

-- What the query has come to: a value, or a status that is returned.
pub data Answer (D : Type 0) : Type 0 where
  found : D → Answer D
  failed : ℕ → Answer D

pub record Query (D : Type 0) : Type 0 where
  pub data_value : D
  pub start : ℕ
  pub started : Bool

-- `query[i - 1] != '\\'`, for `i` above 0.
abbrev pub unescaped : Bytes → ℕ → Bool
unescaped query zero = false
unescaped query (suc i) = elim (get_elem? query i) [ none ↦ true | some c ↦ not (c == b'\\') ]

-- `key.substr(1, key.size() - 2)`, where the difference is one of `size_t`.
unfoldable pub unquote : Bytes → Bytes
unquote key = substr key 1 ((length key + (2 ^ 64 - 2)) % 2 ^ 64)

abbrev pub is_quoted : Bytes → Bool
is_quoted [] = false
is_quoted (c ∷ cs) = c == b'\''

abbrev pub is_empty : Bytes → Bool
is_empty [] = true
is_empty (c ∷ cs) = false

abbrev pub and_then : {A : Type 0} {B : Type 0} → Answer A → (A → Answer B) → Answer B
and_then (found a) f = f a
and_then (failed status) f = failed status

-- `catch (…)`.
abbrev pub caught : {D : Type 0} → Bool → D → Option D → Answer D
caught allow_failure data_value (some next) = found next
caught allow_failure data_value none = if allow_failure then found data_value else failed 3

module _ {D : Type 0} (json : JsonLibrary D) where
  unfoldable pub look_up : Bool → D → Bytes → Answer D
  look_up allow_failure data_value key =
      if is_quoted key
      then caught allow_failure data_value (json.at_key data_value (unquote key))
      else let (idx, endp) = strtol key in
        if is_empty endp
        then caught allow_failure data_value (json.at_index data_value idx)
        else failed 2

  abbrev pub looked_up : Query D → Answer D → Answer (Query D)
  looked_up scan (found next) = found (record scan { data_value = next; started = false })
  looked_up scan (failed status) = failed status

  -- One round of the loop, at the character `c` of index `i`.
  unfoldable pub query_step : Bool → Bytes → ℕ → ℕ → Query D → Answer (Query D)
  query_step allow_failure query i c scan =
      if c == b'['
      then found (record scan { start = i + 1; started = true })
      else if c == b']' && unescaped query i
      then looked_up scan
          (look_up allow_failure scan.data_value (substr query scan.start (i - scan.start)))
      else if not scan.started
      then failed 2
      else found scan

  -- The loop from the index `i` on, where the rest of the query stands.
  unfoldable pub query_loop : Bool → Bytes → ℕ → Bytes → Query D → Answer (Query D)
  query_loop allow_failure query i [] scan = found scan
  query_loop allow_failure query i (c ∷ rest) scan =
      and_then (query_step allow_failure query i c scan)
        λ next. query_loop allow_failure query (i + 1) rest next

  unfoldable pub run_query : Bool → Bytes → D → Answer D
  run_query allow_failure query data_value =
      and_then
        (query_loop allow_failure query 0 query
          (record { data_value = data_value; start = 0; started = false }))
        λ scan. found scan.data_value

-- What the code does to bash's variables: `bind_variable` gives a variable no value, `set_text`
-- assigns to its `value`, `set_integer` adds the attribute of integers, and `itos` is bash's printer of
-- numbers.
pub record Binder {ℓ} (S : Type ℓ) : Type ℓ where
  pub bind_variable : Bytes → S → S
  pub set_text : Bytes → Bytes → S → S
  pub set_integer : Bytes → S → S
  pub itos : ℤ → Bytes

module _ {ℓ} {D : Type 0} {S : Type ℓ} (json : JsonLibrary D) (bash : Binder S) where
  -- The Boolean tells whether a variable is returned.
  unfoldable pub shell_var_from_json : D → Bytes → S → S × Bool
  shell_var_from_json input name s =
      let bound = bash.bind_variable name s in
      elim (json.kind input) [
        | null_kind ↦ (bound, true)
        | string str ↦ (bash.set_text name str bound, true)
        | boolean value ↦ (bash.set_text name (if value then codes "1" else codes "0") bound, true)
        | integer value ↦ (
          bash.set_integer name (bash.set_text name (bash.itos (json.get_int value)) bound),
          true,
        )
        | other ↦ (bound, false)
      ]

  unfoldable pub autobuild_deserialize_variable : Bytes → Bytes → Bytes → Bool → S → S × ℕ
  autobuild_deserialize_variable content query var_name allow_failure s =
      elim (json.parse content) [
        | none ↦ (s, 1)
        | some data_value ↦ elim (run_query json allow_failure query data_value) [
          | failed status ↦ (s, status)
          | found result ↦
              let (t, made) = shell_var_from_json result var_name s in (t, if made then 0 else 4)
        ]
      ]

-- `make_command_string` is bash's printer of a function; `find_variable` is bash's too. `none` is
-- a text made of a null pointer, or an array read as a text.
module _ {D : Type 0} (json : JsonLibrary D) (make_command_string : Var → Bytes) where
  abbrev text_value : Value → Option D
  text_value (text s) = some (json.from_text s)
  text_value null = none
  text_value (cells xs) = none
  text_value (table xs) = none

  abbrev array_value : Value → Option D
  array_value (cells xs) = some (json.from_array xs)
  array_value null = none
  array_value (text s) = none
  array_value (table xs) = none

  abbrev table_value : Value → Option D
  table_value (table xs) = some (json.from_table xs)
  table_value null = none
  table_value (text s) = none
  table_value (cells xs) = none

  unfoldable pub json_from_shell_var : Option Var → Option D
  json_from_shell_var none = some json.null_value
  json_from_shell_var (some var) =
      if var.is_integer
      then text_value var.value
      else if var.is_function
      then some (json.from_text (make_command_string var))
      else if var.is_array
      then array_value var.value
      else if var.is_assoc
      then table_value var.value
      else text_value var.value

  unfoldable pub serialize_each : (Bytes → Option Var) → List Bytes → D → Option D
  serialize_each find_variable [] j = some j
  serialize_each find_variable (variable ∷ variables) j =
      json_from_shell_var (find_variable variable) >>= λ value.
      serialize_each find_variable variables (json.set_key variable value j)

  unfoldable pub autobuild_serialized_variables : (Bytes → Option Var) → List Bytes → Option Bytes
  autobuild_serialized_variables find_variable variables =
      serialize_each find_variable variables json.null_value >>= λ j. some (json.dump j)
