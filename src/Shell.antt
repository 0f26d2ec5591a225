-- ===== src/Shell.antt =====
-- The C++ code of native/bashinterface.cpp and native/abnativefunctions.cpp on the shell's
-- variables and files. Bash is not part of the repository: a variable is what the code reads of a
-- `SHELL_VAR`.
pub mod Arch
pub mod Archive
pub mod Array
pub mod Backtrace
pub mod Die
pub mod Directory
pub mod Entry
pub mod Filter
pub mod Find
pub mod Listing
pub mod Load
pub mod Modifiers
pub mod Parallel
pub mod Strict
pub mod Truth
pub mod Types
pub mod Variables
pub mod Words
mod Tests
use autobuild.Base.{Bool, List, Bytes}

-- `value`: a null pointer, a text, the elements of an array, or an associative array.
pub data Value : Type 0 where
  null : Value
  text : Bytes → Value
  cells : List Bytes → Value
  table : List (Bytes × Bytes) → Value

-- `SHELL_VAR`, with the attributes of `att_type_mask`.
pub record Var : Type 0 where
  pub name : Bytes
  pub is_array : Bool
  pub is_function : Bool
  pub is_integer : Bool
  pub is_assoc : Bool
  pub value : Value
