-- ===== src/Serialize/Item.antt =====
-- `abjson_get_item` of native/abnativefunctions.cpp.
pub mod Status
use autobuild.Base.{
  ℕ, Bool, true, false, ◌==◌, List, [], ◌∷◌, if◌then◌else◌, Option, none, some, Bytes, codes,
}
use autobuild.Logger.{LogLevel, error, Logger, Write, Json, log}
use autobuild.Shell.Words.{WordList, get_argv1}
use autobuild.Serialize.{JsonLibrary, Binder, autobuild_deserialize_variable}

-- The `switch` on the status.
unfoldable pub complaint : ℕ → Option Bytes
complaint ret =
    if ret == 1
    then some (codes "Invalid JSON input.")
    else if ret == 2
    then some (codes "Invalid JSON query.")
    else if ret == 3
    then some (codes "JSON query returned error.")
    else if ret == 4
    then some (codes "Unable to represent the JSON value in Bash.")
    else none

-- `dump` is the JSON library's printer of an object, and `ex_badusage` is bash's `EX_BADUSAGE`.
module _ {ℓ} {D : Type 0} {S : Type ℓ} (json : JsonLibrary D) (bash : Binder S)
    (dump : List (Bytes × Json) → Bytes) (logger : Logger) (ex_badusage : ℕ) where
  unfoldable pub complain : ℕ → List Write
  complain ret = elim (complaint ret) [ none ↦ [] | some message ↦ log dump logger error message ]

  unfoldable pub get_item : Bytes → Bytes → Bytes → S → S × List Write × ℕ
  get_item json_data key var s =
      let (t, ret) = autobuild_deserialize_variable json bash json_data key var false s in
      (t, complain ret, ret)

  unfoldable pub abjson_get_item : WordList → S → S × List Write × ℕ
  abjson_get_item (some json_data ∷ some key ∷ some var ∷ list) s = get_item json_data key var s
  abjson_get_item (some json_data ∷ some key ∷ none ∷ list) s = (s, [], ex_badusage)
  abjson_get_item (some json_data ∷ some key ∷ []) s = (s, [], ex_badusage)
  abjson_get_item (some json_data ∷ none ∷ list) s = (s, [], ex_badusage)
  abjson_get_item (some json_data ∷ []) s = (s, [], ex_badusage)
  abjson_get_item (none ∷ list) s = (s, [], ex_badusage)
  abjson_get_item [] s = (s, [], ex_badusage)
