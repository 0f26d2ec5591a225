-- ===== src/JsonData.antt =====
-- The functions of native/abjsondata.cpp, on the objects and arrays that the JSON library reads
-- from the files under sets/.
pub mod Groups
use autobuild.Base.{
  ℕ, Bool, true, false, List, [], ◌∷◌, ◌++◌, if◌then◌else◌, Option, none, some, Bytes, equal,
  contains,
}

-- The arrays of exports.json, one after the other.
unfoldable pub jsondata_get_exported_vars : List (Bytes × List Bytes) → List Bytes
jsondata_get_exported_vars [] = []
jsondata_get_exported_vars ((name, inner_array) ∷ exported_vars_json) =
    inner_array ++ jsondata_get_exported_vars exported_vars_json

-- An `unordered_map` as the function that finds a key. `emplace` leaves a key that is there.
abbrev pub Map : Type 0
Map = Bytes → Option Bytes

abbrev emplace_entry : Bytes → Bytes → Map → Map
emplace_entry key value entries other = elim (entries other) [
  | some old ↦ some old
  | none ↦ if equal key other then some value else none
]

unfoldable pub emplace_each : List (Bytes × Bytes) → Map → Map
emplace_each [] entries = entries
emplace_each ((key, value) ∷ arch_targets) entries =
    emplace_each arch_targets (emplace_entry key value entries)

unfoldable pub jsondata_get_arch_targets : List (Bytes × Bytes) → Map
jsondata_get_arch_targets arch_targets = emplace_each arch_targets λ key. none

-- The loop over one group: its name is appended for each element that is the architecture.
unfoldable pub push_group : Bytes → Bytes → List Bytes → List Bytes → List Bytes
push_group group_name this_arch [] groups = groups
push_group group_name this_arch (arch_value ∷ group) groups =
    push_group group_name this_arch group
      (if equal arch_value this_arch then groups ++ group_name ∷ [] else groups)

unfoldable pub push_groups : Bytes → List (Bytes × List Bytes) → List Bytes → List Bytes
push_groups this_arch [] groups = groups
push_groups this_arch ((group_name, group) ∷ arch_groups) groups =
    push_groups this_arch arch_groups (push_group group_name this_arch group groups)

unfoldable pub jsondata_get_arch_groups : List (Bytes × List Bytes) → Bytes → List Bytes
jsondata_get_arch_groups arch_groups this_arch = push_groups this_arch arch_groups []
