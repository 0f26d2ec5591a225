-- ===== src/Shell/Arch.antt =====
-- `set_arch_variables` of native/abnativefunctions.cpp.
pub mod Host
mod Tests
use autobuild.Base.{
  ℕ, Bool, true, false, List, [], ◌∷◌, ◌++◌, if◌then◌else◌, Option, none, some, ◌>>=◌, Bytes, codes,
}
use autobuild.JsonData.{jsondata_get_arch_targets, jsondata_get_arch_groups}
use autobuild.Shell.Find.{text_of}
use autobuild.Shell.{Value, text, Var}
use autobuild.Shell.Array.{Address, Heap, Array}
use autobuild.Shell.Listing.{push_all}

-- `std::string` of the value; `none` is a null pointer or an array.
abbrev pub string_of : Value → Option Bytes
string_of value = elim (text_of value) [ none ↦ none | some read ↦ read ]

-- `get_self_path`, which has no path for a variable that is missing.
unfoldable pub get_self_path : Option Var → Option Bytes
get_self_path none = some []
get_self_path (some path_var) = string_of path_var.value

abbrev pub is_empty : Bytes → Bool
is_empty [] = true
is_empty (c ∷ cs) = false

-- What the code uses of bash and of the system. `set_self_path` is whether the function of that
-- name succeeds, and the files under a path are read by `arch_targets` and `arch_groups`, where
-- `none` is an exception of the JSON library. `make_array` is `make_new_array_variable`.
pub record Setup : Type 0 where
  pub find_variable : Bytes → Option Var
  pub set_self_path : Bool
  pub arch_targets : Bytes → Option (List (Bytes × Bytes))
  pub arch_groups : Bytes → Option (List (Bytes × List Bytes))
  pub create_element : ℕ → Option Bytes → Heap → Address × Heap
  pub make_array : Heap → Array × Heap
  pub native_arch_name : Bytes

-- What is set: the associative array `ARCH_TARGET`, the global variables, in order, and the array
-- `ABHOST_GROUP`.
pub record Globals : Type 0 where
  pub targets : List (Bytes × Bytes)
  pub bound : List (Bytes × Bytes)
  pub groups : Array
  pub heap : Heap

module _ (setup : Setup) where
  -- `ARCH`, the argument, or the architecture of the program.
  unfoldable pub this_arch : Option Bytes → Option Bytes
  this_arch arch = elim (setup.find_variable (codes "ARCH")) [
    | some var ↦ string_of var.value
    | none ↦ elim arch [ some name ↦ some name | none ↦ some setup.native_arch_name ]
  ]

  -- `map_table[this_arch]`.
  unfoldable pub arch_triple : List (Bytes × Bytes) → Bytes → Bytes
  arch_triple targets arch = elim (jsondata_get_arch_targets targets arch) [
    | none ↦ []
    | some triple ↦ triple
  ]

  -- What is set from the contents of the two files and the architecture.
  unfoldable pub globals_of :
      List (Bytes × Bytes) → List (Bytes × List Bytes) → Bytes → Heap → Globals
  globals_of targets groups host heap =
      let triple = arch_triple targets host in
      let (array, made) = setup.make_array heap in
      let (filled, after) =
        push_all setup.create_element (jsondata_get_arch_groups groups host) array made in
      record {
        targets = targets;
        bound =
            (codes "ARCH", host)
            ∷ (codes "ABHOST", host)
            ∷ (codes "ABBUILD", host)
            ∷ (codes "HOST", triple)
            ∷ (codes "BUILD", triple)
            ∷ [];
        groups = filled;
        heap = after;
      }

  -- From the path on; `none` is a fault or an exception.
  unfoldable pub set_from : Bytes → Option Bytes → Heap → Option Globals
  set_from ab_path arch heap = setup.arch_targets ab_path >>= λ targets. this_arch arch >>= λ host.
      setup.arch_groups ab_path >>= λ groups. some (globals_of targets groups host heap)

  -- The inner `none` is the status 1. The path stays empty where `set_self_path` has set it.
  unfoldable pub set_arch_variables : Option Bytes → Heap → Option (Option Globals)
  set_arch_variables arch heap = get_self_path (setup.find_variable (codes "AB")) >>= λ ab_path.
      if is_empty ab_path
      then (if setup.set_self_path
          then (set_from [] arch heap >>= λ globals. some (some globals))
          else some none)
      else (set_from ab_path arch heap >>= λ globals. some (some globals))
