-- ===== src/Serialize/Item/Status.antt =====
-- The statuses of `abjson_get_item` in native/abnativefunctions.cpp.
use autobuild.Base.{
  Option-cases, ℕ, ◌≤◌, Bool, true, false, not, ◌&&◌, ◌==◌, List, [], ◌∷◌, if◌then◌else◌, Option,
  none, some, Bytes, ◌≡◌, ◌≢◌, ◌↔◌, ◌⊎◌, inl, inr, refl, sym, ◌∙◌, arith, strtol, ◌+◌,
}
use autobuild.Logger.{
  LogLevel, error, Logger, null_logger, plain_logger, json_logger, colorful_logger, Json, log,
}
use autobuild.Shell.Words.{WordList}
use autobuild.Serialize.{
  unescaped, JsonLibrary, Binder, Answer, found, failed, Query, caught, look_up, looked_up,
  query_step, query_loop, run_query, and_then, autobuild_deserialize_variable, shell_var_from_json,
  unquote, is_quoted, is_empty,
}
use autobuild.Serialize.Item.{complaint, complain, get_item, abjson_get_item}

-- An answer that is a value, or a failure with the status 2 or 3.
abbrev Usual : {A : Type 0} → Answer A → Type 0
Usual (found a) = Unit
Usual (failed status) = (2 ≤ status) × (status ≤ 3)

if-Usual :
    {A : Type 0} → (b : Bool) (x y : Answer A) → Usual x → Usual y → Usual (if b then x else y)
if-Usual true x y h k = h
if-Usual false x y h k = k

caught-Usual :
    {D : Type 0}
    → (allow_failure : Bool) (data_value : D) (result : Option D)
    → Usual (caught allow_failure data_value result)
caught-Usual true data_value none = tt
caught-Usual false data_value none = (omega arith, omega arith)
caught-Usual allow_failure data_value (some next) = tt

and_then-Usual :
    {A : Type 0} {B : Type 0}
    → (answer : Answer A) (f : A → Answer B) → Usual answer
    → ((a : A) → Usual (f a))
    → Usual (and_then answer f)
and_then-Usual (found a) f h k = k a
and_then-Usual (failed status) f h k = h

module _ {D : Type 0} (json : JsonLibrary D) (allow_failure : Bool) where
  look_up-Usual : (data_value : D) (key : Bytes) → Usual (look_up json allow_failure data_value key)
  unfolding look_up
  look_up-Usual data_value key =
      if-Usual (is_quoted key) _ _
        (caught-Usual allow_failure data_value (json.at_key data_value (unquote key)))
        (if-Usual (is_empty (strtol key).1) _ _
          (caught-Usual allow_failure data_value (json.at_index data_value (strtol key).0))
          (omega arith, omega arith))

  looked_up-Usual :
      (scan : Query D) (answer : Answer D) → Usual answer → Usual (looked_up json scan answer)
  looked_up-Usual scan (found next) h = tt
  looked_up-Usual scan (failed status) h = h

  query_step-Usual :
      (query : Bytes) (i c : ℕ) (scan : Query D)
      → Usual (query_step json allow_failure query i c scan)
  unfolding query_step
  query_step-Usual query i c scan = if-Usual (c == b'[') _ _ tt (
      if-Usual (c == b']' && unescaped query i) _ _
        (looked_up-Usual scan _ (look_up-Usual scan.data_value _))
        (if-Usual (not scan.started) _ _ (omega arith, omega arith) tt))

  query_loop-Usual :
      (query rest : Bytes) (i : ℕ) (scan : Query D)
      → Usual (query_loop json allow_failure query i rest scan)
  unfolding query_loop
  query_loop-Usual query [] i scan = tt
  query_loop-Usual query (c ∷ rest) i scan =
      and_then-Usual (query_step json allow_failure query i c scan) _
        (query_step-Usual query i c scan) λ next. query_loop-Usual query rest (i + 1) next

  pub run_query-Usual :
      (query : Bytes) (data_value : D) → Usual (run_query json allow_failure query data_value)
  unfolding run_query
  run_query-Usual query data_value =
      and_then-Usual _ (λ (scan : Query D). found scan.data_value)
        (query_loop-Usual query query 0 _) λ scan. tt

some-ne-none : {A : Type 0} → {a : A} → some a ≢ none
some-ne-none = λ e. cc

status_of : Bool → ℕ
status_of made = if made then 0 else 4

made_status : (made : Bool) → (status_of made ≡ 0) ⊎ (status_of made ≡ 4)
unfolding status_of
made_status true = inl refl
made_status false = inr refl

log-nonempty :
    (dump : List (Bytes × Json) → Bytes) (logger : Logger) (level : LogLevel) (message : Bytes)
    → logger ≢ null_logger
    → log dump logger level message ≢ []
unfolding log
log-nonempty dump null_logger level message h = absurd (h refl)
log-nonempty dump plain_logger level message h = λ e. cc
log-nonempty dump json_logger level message h = λ e. cc
log-nonempty dump colorful_logger level message h = λ e. cc

complaint-none : (status : ℕ) → status ≤ 4 → (status ≡ 0) ↔ (complaint status ≡ none)
unfolding complaint
complaint-none status h = ground arith

module _ {ℓ} {D : Type 0} {S : Type ℓ} (json : JsonLibrary D) (bash : Binder S) where
  -- The status is at most 4, and what is neither success nor a value that bash cannot hold leaves
  -- the variables as they are.
  Plain : S → S × ℕ → Type ℓ
  Plain s result = (result.1 ≤ 4) × (result.1 ≢ 0 → result.1 ≢ 4 → result.0 ≡ s)

  stored-Plain :
      (result : D) (var : Bytes) (s : S)
      → Plain s
          (let (t, made) = shell_var_from_json json bash result var s in (t, if made then 0 else 4))
  unfolding Plain status_of
  stored-Plain result var s = elim (made_status (shell_var_from_json json bash result var s).1) [
    | inl zero ↦ (omega (arith, zero), λ h k. absurd (h zero))
    | inr four ↦ (omega (arith, four), λ h k. absurd (k four))
  ]

  answer-Plain :
      (answer : Answer D) (var : Bytes) (s : S)
      → Usual answer
      → Plain s (elim answer [
        | failed status ↦ (s, status)
        | found result ↦
            let (t, made) = shell_var_from_json json bash result var s in (t, if made then 0 else 4)
      ])
  unfolding Plain
  answer-Plain (found result) var s h = stored-Plain result var s
  answer-Plain (failed status) var s h = (omega (arith, h), λ nonzero not_four. refl)

  deserialize-Plain :
      (content query var : Bytes) (allow_failure : Bool) (s : S)
      → Plain s (autobuild_deserialize_variable json bash content query var allow_failure s)
  unfolding autobuild_deserialize_variable Plain
  deserialize-Plain content query var allow_failure s = elim (Option-cases (json.parse content)) [
    | inl broken ↦ rw (autobuild_deserialize_variable, broken) (omega arith, λ h k. refl)
    | inr (data_value, parsed) ↦
        rw (autobuild_deserialize_variable, parsed)
          (answer-Plain (run_query json allow_failure query data_value) var s
            (run_query-Usual json allow_failure query data_value))
  ]

  module _ (dump : List (Bytes × Json) → Bytes) (logger : Logger) (ex_badusage : ℕ) where
    complain-empty :
        (status : ℕ)
        → status ≤ 4
        → logger ≢ null_logger
        → (status ≡ 0) ↔ (complain json bash dump logger ex_badusage status ≡ [])
    unfolding complain
    complain-empty status h k =
        let (to, from) = complaint-none status h in
        elim (Option-cases (complaint status)) [
          | inl silent ↦ (λ zero. rw (complain, silent) refl, λ empty. from silent)
          | inr (message, loud) ↦ (
            λ zero. absurd (some-ne-none (sym loud ∙ to zero)),
            λ empty.
                absurd (log-nonempty dump logger error message k (rw (complain, loud) at empty)),
          )
        ]

    -- With its three words the builtin gives a status of at most 4. It complains, to a logger
    -- other than the null logger, just if the status is not 0; and unless the status is 0 or 4 it
    -- leaves bash's variables as they are.
    pub abjson_get_item-status :
        (json_data key var : Bytes) (rest : WordList) (s : S)
        → logger ≢ null_logger
        → let result =
            abjson_get_item json bash dump logger ex_badusage
              (some json_data ∷ some key ∷ some var ∷ rest)
              s in
          (result.2 ≤ 4)
          × ((result.2 ≡ 0) ↔ (result.1 ≡ []))
          × (result.2 ≢ 0 → result.2 ≢ 4 → result.0 ≡ s)
    unfolding abjson_get_item get_item Plain
    abjson_get_item-status json_data key var rest s h =
        let (most, kept) = deserialize-Plain json_data key var false s in
        (most, complain-empty _ most h, kept)
