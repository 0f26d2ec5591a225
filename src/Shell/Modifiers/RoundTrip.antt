-- ===== src/Shell/Modifiers/RoundTrip.antt =====
-- Modifiers that are written out and parsed again, for `ab_parse_set_modifiers` of
-- native/abnativefunctions.cpp.
use autobuild.Base.{
  and-eq-true, ℕ, Bool, true, false, List, [], ◌∷◌, ◌++◌, ◌==◌, ◌≡◌, refl, sym, ◌∙◌, ap, arith,
  Option, some, ◌>>=◌, Bytes, all, append-nil, append_assoc, if◌then◌else◌,
}
use autobuild.Shell.Modifiers.{
  Modifier, Scan, push_modifier, is_empty, scan_step, scan_loop, last_modifier, parse_modifiers,
}
use autobuild.Shell.Modifiers.Names.{is_plain, is_name}

abbrev sign : Bool → ℕ
sign enabled = if enabled then b'+' else b'-'

-- The modifiers as `ABMODIFIERS` has them.
unfoldable pub print_modifiers : List Modifier → Bytes
print_modifiers [] = []
print_modifiers (m ∷ []) = sign m.enabled ∷ m.name
print_modifiers (m ∷ n ∷ ms) = sign m.enabled ∷ (m.name ++ (b',' ∷ print_modifiers (n ∷ ms)))

-- What the loop is at when a sign is to come.
abbrev unsigned : List Modifier → Scan
unsigned acc = record { modifiers = acc; state = 0; modifier_name = [] }

abbrev sign_state : Bool → ℕ
sign_state enabled = if enabled then 1 else 2

scan_step-sign :
    (enabled : Bool) (scan : Scan)
    → scan_step scan (sign enabled) ≡ some (record scan { state = sign_state enabled })
unfolding scan_step
scan_step-sign true scan = refl
scan_step-sign false scan = refl

scan_step-plain :
    (scan : Scan) (c : ℕ)
    → is_plain c ≡ true
    → (scan.state == 0) ≡ false
    → scan_step scan c ≡ some (record scan { modifier_name = scan.modifier_name ++ c ∷ [] })
unfolding scan_step is_plain
scan_step-plain scan c plain nz = ground arith

scan_step-comma :
    (scan : Scan)
    → is_empty scan.modifier_name ≡ false
    → (scan.state == 0) ≡ false
    → scan_step scan b',' ≡ some (push_modifier scan 0)
unfolding scan_step
scan_step-comma scan nonempty nz = rw (nz, nonempty) refl

scan_loop-plain :
    (rest name : Bytes) (scan : Scan)
    → all is_plain name ≡ true
    → (scan.state == 0) ≡ false
    → scan_loop scan (name ++ rest)
      ≡ scan_loop (record scan { modifier_name = scan.modifier_name ++ name }) rest
unfolding scan_loop
scan_loop-plain rest [] scan h nz = rw (append-nil scan.modifier_name) refl
scan_loop-plain rest (c ∷ cs) scan h nz =
    let parts = and-eq-true (is_plain c) (all is_plain cs) h in
    rw (scan_step-plain scan c parts.0 nz) (
      scan_loop-plain rest cs _ parts.1 nz
      ∙ ap (λ name. scan_loop (record scan { modifier_name = name }) rest)
          (append_assoc scan.modifier_name (c ∷ []) cs))

sign_state-nonzero : (enabled : Bool) → (sign_state enabled == 0) ≡ false
sign_state-nonzero true = refl
sign_state-nonzero false = refl

sign_state-one : (enabled : Bool) → (sign_state enabled == 1) ≡ enabled
sign_state-one true = refl
sign_state-one false = refl

-- One modifier that is printed, and what stands behind it.
scan_loop-modifier :
    (rest : Bytes) (m : Modifier) (acc : List Modifier)
    → all is_plain m.name ≡ true
    → scan_loop (unsigned acc) (sign m.enabled ∷ (m.name ++ rest))
      ≡ scan_loop
          (record { modifiers = acc; state = sign_state m.enabled; modifier_name = m.name })
          rest
unfolding scan_loop
scan_loop-modifier rest m acc plain =
    rw (scan_step-sign m.enabled (unsigned acc))
      (scan_loop-plain rest m.name _ plain (sign_state-nonzero m.enabled))

last_modifier-some :
    (m : Modifier) (acc : List Modifier)
    → is_empty m.name ≡ false
    → last_modifier
        (record { modifiers = acc; state = sign_state m.enabled; modifier_name = m.name })
      ≡ acc ++ m ∷ []
unfolding last_modifier push_modifier
last_modifier-some m acc nonempty = rw (nonempty, sign_state-one m.enabled) refl

scan_loop-comma :
    (rest : Bytes) (m : Modifier) (acc : List Modifier)
    → is_empty m.name ≡ false
    → scan_loop
        (record { modifiers = acc; state = sign_state m.enabled; modifier_name = m.name })
        (b',' ∷ rest)
      ≡ scan_loop (record { modifiers = acc ++ m ∷ []; state = 0; modifier_name = [] }) rest
unfolding scan_loop push_modifier
scan_loop-comma rest m acc nonempty =
    let scan : Scan = record {
      modifiers = acc;
      state = sign_state m.enabled;
      modifier_name = m.name;
    } in
    rw (scan_step-comma scan nonempty (sign_state-nonzero m.enabled), sign_state-one m.enabled) refl

is_name-parts :
    (m : Modifier) → is_name m ≡ true → (is_empty m.name ≡ false) × (all is_plain m.name ≡ true)
unfolding is_name
is_name-parts m h = ground (arith, h)

parse_modifiers_nil : parse_modifiers [] ≡ some []
unfolding parse_modifiers scan_loop last_modifier
parse_modifiers_nil = refl

abbrev finish : Option Scan → Option (List Modifier)
finish m = m >>= λ scan. some (last_modifier scan)

scan_loop-print :
    (m : Modifier) (ms acc : List Modifier)
    → all is_name (m ∷ ms) ≡ true
    → finish (scan_loop (unsigned acc) (print_modifiers (m ∷ ms))) ≡ some (acc ++ m ∷ ms)
unfolding print_modifiers scan_loop
scan_loop-print m [] acc h =
    let parts = is_name-parts m ((and-eq-true (is_name m) true h).0) in
    ap finish (
      ap (λ name. scan_loop (unsigned acc) (sign m.enabled ∷ name)) (sym (append-nil m.name))
      ∙ scan_loop-modifier [] m acc parts.1)
    ∙ ap some (last_modifier-some m acc parts.0)
scan_loop-print m (n ∷ ms) acc h =
    let both = and-eq-true (is_name m) (all is_name (n ∷ ms)) h in
    let parts = is_name-parts m both.0 in
    ap finish (
      scan_loop-modifier (b',' ∷ print_modifiers (n ∷ ms)) m acc parts.1
      ∙ scan_loop-comma (print_modifiers (n ∷ ms)) m acc parts.0)
    ∙ scan_loop-print n ms (acc ++ m ∷ []) both.1
    ∙ ap some (append_assoc acc (m ∷ []) (n ∷ ms))

-- Modifiers with names of plain characters are parsed as they are printed.
pub parse_modifiers-print :
    (ms : List Modifier) → all is_name ms ≡ true → parse_modifiers (print_modifiers ms) ≡ some ms
unfolding parse_modifiers print_modifiers
parse_modifiers-print [] h = parse_modifiers_nil
parse_modifiers-print (m ∷ ms) h = scan_loop-print m ms [] h
