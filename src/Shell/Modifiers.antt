-- ===== src/Shell/Modifiers.antt =====
-- `ab_parse_set_modifiers` of native/abnativefunctions.cpp.
pub mod RoundTrip
pub mod Names
pub mod Setting
mod Tests
use autobuild.Base.{
  ℕ, Bool, true, false, ◌&&◌, List, [], ◌∷◌, ◌++◌, ◌==◌, if◌then◌else◌, Option, none, some, ◌>>=◌,
  Bytes, codes, equal,
}
use autobuild.Shell.Variables.{string_to_uppercase}

-- `ab_modifier`.
pub record Modifier : Type 0 where
  pub name : Bytes
  pub enabled : Bool

-- The variables of the loop: `state` is 0 before a sign, 1 behind '+' and 2 behind '-'.
pub record Scan : Type 0 where
  pub modifiers : List Modifier
  pub state : ℕ
  pub modifier_name : Bytes

-- `push_back`, and the name moved away and the state set.
unfoldable pub push_modifier : Scan → ℕ → Scan
push_modifier scan state = record {
  modifiers =
      scan.modifiers ++ record { name = scan.modifier_name; enabled = scan.state == 1 } ∷ [];
  state = state;
  modifier_name = [];
}

-- `modifier_name.empty()`.
abbrev pub is_empty : Bytes → Bool
is_empty [] = true
is_empty (c ∷ cs) = false

-- One round; `none` is the return of `EX_BADASSIGN`.
unfoldable pub scan_step : Scan → ℕ → Option Scan
scan_step scan c =
    if c == b'+'
    then some (record scan { state = 1 })
    else if c == b'-'
    then some (record scan { state = 2 })
    else if scan.state == 0
    then none
    else if c == b','
    then (if is_empty scan.modifier_name then none else some (push_modifier scan 0))
    else some (record scan { modifier_name = scan.modifier_name ++ c ∷ [] })

unfoldable pub scan_loop : Scan → Bytes → Option Scan
scan_loop scan [] = some scan
scan_loop scan (c ∷ cs) = scan_step scan c >>= λ next. scan_loop next cs

-- The last element.
unfoldable pub last_modifier : Scan → List Modifier
last_modifier scan =
    if is_empty scan.modifier_name
    then scan.modifiers
    else (push_modifier scan scan.state).modifiers

abbrev pub start : Scan
start = record { modifiers = []; state = 0; modifier_name = [] }

unfoldable pub parse_modifiers : Bytes → Option (List Modifier)
parse_modifiers text = scan_loop start text >>= λ scan. some (last_modifier scan)

-- What the code uses of the environment, of bash and of the logger. `make_modifiers` makes the
-- associative array `__ABMODIFIERS` and gives false for a null pointer, `mark` sets its
-- attributes, `put` is `hash_insert` into it and the assignment to the element's data, and
-- `ex_badassign` is bash's `EX_BADASSIGN`.
pub record Environment {ℓ} (S : Type ℓ) : Type ℓ where
  pub ex_badassign : ℕ
  pub getenv : Bytes → S → Option Bytes
  pub setenv : Bytes → Bytes → S → S
  pub make_modifiers : S → S × Bool
  pub mark : S → S
  pub put : Bytes → Bytes → S → S
  pub info : Bytes → S → S
  pub error : Bytes → S → S

-- How `fmt` prints a Boolean.
abbrev pub bool_text : Bool → Bytes
bool_text true = codes "true"
bool_text false = codes "false"

module _ {ℓ} {S : Type ℓ} (os : Environment S) where
  unfoldable pub set_modifier : Modifier → S → S
  set_modifier modifier s =
      let name = string_to_uppercase modifier.name in
      let logged =
        os.info
          (codes "Setting modifier " ++ (name ++ (codes " to " ++ bool_text modifier.enabled))) s in
      let staged =
        if equal name (codes "STAGE2") && modifier.enabled
        then os.setenv (codes "ABSTAGE2") (codes "1") logged
        else logged in
      os.put name (if modifier.enabled then codes "1" else codes "0") staged

  unfoldable pub set_modifiers : List Modifier → S → S
  set_modifiers [] s = s
  set_modifiers (modifier ∷ modifiers) s = set_modifiers modifiers (set_modifier modifier s)

  -- `none` is `abort()`.
  unfoldable pub ab_parse_set_modifiers : S → Option (S × ℕ)
  ab_parse_set_modifiers s = elim (os.getenv (codes "ABMODIFIERS") s) [
    | none ↦ some (s, 0)
    | some text ↦ elim (parse_modifiers text) [
      | none ↦ some (s, os.ex_badassign)
      | some modifiers ↦
          let (t, made) = os.make_modifiers s in
          if made then some (set_modifiers modifiers (os.mark t), 0) else none
    ]
  ]
