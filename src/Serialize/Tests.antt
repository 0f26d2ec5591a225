-- ===== src/Serialize/Tests.antt =====
-- A library for JSON values of a few kinds, and the statements about queries and variables there.
use autobuild.Base.{
  ℕ, suc, ◌+◌, ◌-◌, ◌%◌, ◌^◌, ltb, ltb_iff, arith, ap, sym, ◌∙◌, ends, strtol, strtol-decimal,
  strtol-minus_decimal, append-nil, negate, ◌≤◌, true, false, List, [], ◌∷◌, Option, none, some,
  Bytes, codes, equal, decimal, digits, get_elem?, ℤ, pos, negsuc, atoi, if◌then◌else◌, ◌≡◌, ◌≢◌,
  ◌↔◌, refl, contains,
}
use autobuild.Logger.{plain_logger, Json}
use autobuild.Shell.{text, Var}
use autobuild.Serialize.{
  JsonLibrary, Kind, null_kind, string, other, Binder, found, run_query, integer,
  autobuild_deserialize_variable, autobuild_serialized_variables, serialize_each,
  json_from_shell_var, query_loop, query_step, look_up, unquote, shell_var_from_json,
}
use autobuild.Serialize.Path.{
  Step, body, is_writable, is_inner, key, index, print_path, walk, run_query-path,
}
use autobuild.Serialize.Number.{is_int, IsNumeric, deserialize_variable-integer}
use autobuild.Serialize.Item.{abjson_get_item, get_item}
use autobuild.Serialize.Item.Status.{abjson_get_item-status}
use autobuild.Serialize.Variables.{IsStandard, serialized_variables-deserialize}

data Tree : Type 0 where
  nothing : Tree
  word : Bytes → Tree
  row : List Bytes → Tree
  entry : Bytes → Tree → Tree → Tree
  number : ℤ → Tree

abbrev child : Tree → Bytes → Option Tree
child nothing name = some nothing
child (word s) name = none
child (row xs) name = none
child (number z) name = none
child (entry field value rest) name =
    let later = child rest name in if equal field name then some value else later

abbrev element : Option Bytes → Option Tree
element none = none
element (some s) = some (word s)

abbrev item : Tree → ℤ → Option Tree
item (row xs) (pos n) = element (get_elem? xs n)
item (row xs) (negsuc n) = none
item nothing z = none
item (word s) z = none
item (number n) z = none
item (entry name value rest) z = none

abbrev kind_of : Tree → Kind
kind_of nothing = null_kind
kind_of (word s) = string s
kind_of (row xs) = other
kind_of (number z) = integer z
kind_of (entry name value rest) = other

-- A cast to an `int` of 32 bits.
abbrev signed : ℕ → ℤ
signed n = if ltb n (2 ^ 31) then pos n else negsuc (2 ^ 32 - 1 - n)

abbrev narrow : ℤ → ℤ
narrow (pos n) = signed (n % 2 ^ 32)
narrow (negsuc n) = signed (2 ^ 32 - 1 - n % 2 ^ 32)

abbrev print_int : ℤ → Bytes
print_int (pos n) = decimal n
print_int (negsuc n) = b'-' ∷ decimal (n + 1)

is_int-narrow : (z : ℤ) → is_int (narrow z) ≡ true
unfolding is_int
is_int-narrow (pos n) = ground arith
is_int-narrow (negsuc n) = ground arith

narrow_int : (z : ℤ) → is_int z ≡ true → narrow z ≡ z
unfolding is_int
narrow_int (pos n) h = ground arith
narrow_int (negsuc n) h = ground arith

atoi-print_int : (z : ℤ) → is_int z ≡ true → atoi (print_int z) ≡ z
unfolding is_int atoi ends
atoi-print_int (pos n) h =
    ap (λ text. (strtol text).0) (sym (append-nil (decimal n)))
    ∙ ap (λ read. read.0) (strtol-decimal n [] (omega (arith, (ltb_iff n (2 ^ 31)).0 h)) refl)
atoi-print_int (negsuc n) h =
    let small = (ltb_iff n (2 ^ 31)).0 h in
    let next : n + 1 ≡ suc n = omega arith in
    ap (λ read. read.0) (strtol-minus_decimal (n + 1) (omega (arith, small))) ∙ ap negate next

-- The trees that are printed here have one text, from which the one given is parsed.
abbrev library : Tree → JsonLibrary Tree
library tree = record {
  parse = λ content. if equal content (codes "{}") then some tree else none;
  dump = λ j. codes "{}";
  at_key = child;
  at_index = item;
  kind = kind_of;
  get_int = narrow;
  null_value = nothing;
  from_text = word;
  from_array = row;
  from_table = λ fields. nothing;
  set_key = entry;
}

abbrev no_dump : List (Bytes × Json) → Bytes
no_dump fields = []

abbrev binder : Binder (List (Bytes × Bytes))
binder = record {
  bind_variable = λ name vars. (name, []) ∷ vars;
  set_text = λ name value vars. (name, value) ∷ vars;
  set_integer = λ name vars. vars;
  itos = print_int;
}

abbrev names : Tree
names = entry (codes "pkgs") (row (codes "a" ∷ codes "b" ∷ [])) nothing

abbrev second : List Step
second = key (codes "pkgs") ∷ index 1 ∷ []

run_query-path_example :
    run_query (library names) false (print_path second) names
    ≡ walk (library names) false names second
unfolding is_writable is_inner
run_query-path_example = run_query-path (library names) false second names refl

print_path-second : print_path second ≡ codes "['pkgs'][1]"
unfolding print_path body decimal digits
print_path-second = refl

walk-second : walk (library names) false names second ≡ found (word (codes "b"))
unfolding walk equal
walk-second = refl

abbrev too_long : Tree
too_long = entry (codes "n") (number (pos 4294967297)) nothing

library-IsNumeric : IsNumeric (library too_long) binder
library-IsNumeric = record { narrowed = is_int-narrow; kept = narrow_int; printed = atoi-print_int }

deserialize_variable-integer_example :
    (text : Bytes) × (autobuild_deserialize_variable
        (library too_long)
        binder
        (codes "{}")
        (codes "['n']")
        (codes "x")
        false
        []
      ≡ ((codes "x", text) ∷ (codes "x", []) ∷ [], 0))
    × (is_int (atoi text) ≡ true)
    × ((atoi text ≡ pos 4294967297) ↔ (is_int (pos 4294967297) ≡ true))
unfolding run_query query_loop query_step look_up unquote equal
deserialize_variable-integer_example =
    deserialize_variable-integer (library too_long) binder (codes "{}") (codes "['n']") (codes "x")
      false [] too_long (number (pos 4294967297)) (pos 4294967297) library-IsNumeric refl refl refl

abjson_get_item-status_example :
    let result =
      abjson_get_item
        (library names)
        binder
        no_dump
        plain_logger
        2
        (some (codes "{}") ∷ some (codes "['pkgs']") ∷ some (codes "x") ∷ [])
        [] in
    (result.2 ≤ 4)
    × ((result.2 ≡ 0) ↔ (result.1 ≡ []))
    × (result.2 ≢ 0 → result.2 ≢ 4 → result.0 ≡ [])
abjson_get_item-status_example =
    abjson_get_item-status (library names) binder no_dump plain_logger 2 (codes "{}")
      (codes "['pkgs']") (codes "x") [] [] λ same. cc

-- An array cannot be held by a variable that is made from JSON.
abjson_get_item_array :
    (abjson_get_item
      (library names)
      binder
      no_dump
      plain_logger
      2
      (some (codes "{}") ∷ some (codes "['pkgs']") ∷ some (codes "x") ∷ [])
      []).2
    ≡ 4
unfolding abjson_get_item get_item autobuild_deserialize_variable run_query query_loop query_step
    look_up unquote equal shell_var_from_json
abjson_get_item_array = refl

abbrev version : Var
version = record {
  name = codes "VER";
  is_array = false;
  is_function = false;
  is_integer = false;
  is_assoc = false;
  value = text (codes "1.2");
}

abbrev variables : Bytes → Option Var
variables name = if equal name (codes "VER") then some version else none

abbrev printed : Tree
printed = entry (codes "REL") nothing (entry (codes "VER") (word (codes "1.2")) nothing)

library-IsStandard : (tree : Tree) → IsStandard (library tree)
library-IsStandard tree = record {
  at_key-set_key = λ name other_name value j. refl;
  kind-from_text = λ s. refl;
}

serialized_variables-deserialize_example :
    (content : Bytes) × (autobuild_serialized_variables
        (library printed)
        (λ var. [])
        variables
        (codes "VER" ∷ codes "REL" ∷ [])
      ≡ some content)
    × (autobuild_deserialize_variable
          (library printed)
          binder
          content
          (print_path (key (codes "VER") ∷ []))
          (codes "x")
          false
          []
        ≡ ((codes "x", codes "1.2") ∷ (codes "x", []) ∷ [], 0))
unfolding equal contains serialize_each json_from_shell_var is_writable is_inner
serialized_variables-deserialize_example =
    serialized_variables-deserialize (library printed) (library-IsStandard printed) (λ var. [])
      variables binder (codes "VER") (codes "1.2") (codes "x") version
      (codes "VER" ∷ codes "REL" ∷ []) printed [] refl
      (record { function = refl; array = refl; assoc = refl; holds = refl }) refl refl refl refl
