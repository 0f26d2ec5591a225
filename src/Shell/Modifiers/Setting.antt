-- ===== src/Shell/Modifiers/Setting.antt =====
-- What `ab_parse_set_modifiers` of native/abnativefunctions.cpp leaves in the associative array
-- and in the environment.
use autobuild.Base.{
  Bool, true, false, ◌&&◌, ◌||◌, List, [], ◌∷◌, ◌≡◌, refl, ◌∙◌, ap, arith, Option, none, some,
  Bytes, codes, equal, all, if◌then◌else◌,
}
use autobuild.Shell.Variables.{string_to_uppercase}
use autobuild.Shell.Modifiers.{
  Modifier, Environment, set_modifier, set_modifiers, ab_parse_set_modifiers,
}
use autobuild.Shell.Modifiers.Names.{is_name}
use autobuild.Shell.Modifiers.RoundTrip.{print_modifiers, parse_modifiers-print}

-- The last modifier of a name in capital letters decides.
unfoldable pub last_setting : Bytes → List Modifier → Option Bytes
last_setting key [] = none
last_setting key (m ∷ ms) = elim (last_setting key ms) [
  | some setting ↦ some setting
  | none ↦
      if equal (string_to_uppercase m.name) key
      then some (if m.enabled then codes "1" else codes "0")
      else none
]

-- Some modifier enables the second stage.
unfoldable pub enables_stage2 : List Modifier → Bool
enables_stage2 [] = false
enables_stage2 (m ∷ ms) =
    equal (string_to_uppercase m.name) (codes "STAGE2") && m.enabled || enables_stage2 ms

abbrev or_old : Option Bytes → Option Bytes → Option Bytes
or_old none old = old
or_old (some setting) old = some setting

or_old_none : (new : Option Bytes) → or_old new none ≡ new
or_old_none none = refl
or_old_none (some setting) = refl

-- How the associative array and the environment are read: `setting` gives the value of a key.
pub record IsKept {ℓ} {S : Type ℓ} (os : Environment S) (setting : Bytes → S → Option Bytes)
    : Type ℓ where
  pub setting-make : (key : Bytes) (s : S) → setting key (os.make_modifiers s).0 ≡ none
  pub setting-mark : (key : Bytes) (s : S) → setting key (os.mark s) ≡ setting key s
  pub setting-info : (key message : Bytes) (s : S) → setting key (os.info message s) ≡ setting key s
  pub setting-setenv :
      (key name value : Bytes) (s : S) → setting key (os.setenv name value s) ≡ setting key s
  pub setting-put :
      (key name value : Bytes) (s : S)
      → setting key (os.put name value s) ≡ (if equal name key then some value else setting key s)
  pub getenv-make : (key : Bytes) (s : S) → os.getenv key (os.make_modifiers s).0 ≡ os.getenv key s
  pub getenv-mark : (key : Bytes) (s : S) → os.getenv key (os.mark s) ≡ os.getenv key s
  pub getenv-info :
      (key message : Bytes) (s : S) → os.getenv key (os.info message s) ≡ os.getenv key s
  pub getenv-put :
      (key name value : Bytes) (s : S) → os.getenv key (os.put name value s) ≡ os.getenv key s
  pub getenv-setenv :
      (key value : Bytes) (s : S) → os.getenv key (os.setenv key value s) ≡ some value

module _ {ℓ} {S : Type ℓ} (os : Environment S) (setting : Bytes → S → Option Bytes)
    (kept : IsKept os setting) where
  setting-staged :
      (key : Bytes) (staged : Bool) (message : Bytes) (s : S)
      → setting key (
          if staged
          then os.setenv (codes "ABSTAGE2") (codes "1") (os.info message s)
          else os.info message s)
        ≡ setting key s
  setting-staged key true message s =
      kept.setting-setenv key (codes "ABSTAGE2") (codes "1") (os.info message s)
      ∙ kept.setting-info key message s
  setting-staged key false message s = kept.setting-info key message s

  getenv-staged :
      (staged : Bool) (message : Bytes) (s : S)
      → os.getenv (codes "ABSTAGE2") (
          if staged
          then os.setenv (codes "ABSTAGE2") (codes "1") (os.info message s)
          else os.info message s)
        ≡ (if staged then some (codes "1") else os.getenv (codes "ABSTAGE2") s)
  getenv-staged true message s =
      kept.getenv-setenv (codes "ABSTAGE2") (codes "1") (os.info message s)
  getenv-staged false message s = kept.getenv-info (codes "ABSTAGE2") message s

  set_modifier-setting :
      (key : Bytes) (m : Modifier) (s : S)
      → setting key (set_modifier os m s) ≡ (
          if equal (string_to_uppercase m.name) key
          then some (if m.enabled then codes "1" else codes "0")
          else setting key s)
  unfolding set_modifier
  set_modifier-setting key m s =
      let name = string_to_uppercase m.name in
      kept.setting-put key name _ _
      ∙ ap
          (λ old. if equal name key then some (if m.enabled then codes "1" else codes "0") else old)
          (setting-staged key (equal name (codes "STAGE2") && m.enabled) _ s)

  set_modifiers-setting :
      (key : Bytes) (ms : List Modifier) (s : S)
      → setting key (set_modifiers os ms s) ≡ or_old (last_setting key ms) (setting key s)
  unfolding set_modifiers last_setting
  set_modifiers-setting key [] s = refl
  set_modifiers-setting key (m ∷ ms) s =
      ground
        (arith, set_modifiers-setting key ms (set_modifier os m s), set_modifier-setting key m s)

  set_modifier-stage2 :
      (m : Modifier) (s : S)
      → os.getenv (codes "ABSTAGE2") (set_modifier os m s) ≡ (
          if equal (string_to_uppercase m.name) (codes "STAGE2") && m.enabled
          then some (codes "1")
          else os.getenv (codes "ABSTAGE2") s)
  unfolding set_modifier
  set_modifier-stage2 m s =
      kept.getenv-put (codes "ABSTAGE2") _ _ _
      ∙ getenv-staged (equal (string_to_uppercase m.name) (codes "STAGE2") && m.enabled) _ s

  set_modifiers-stage2 :
      (ms : List Modifier) (s : S)
      → os.getenv (codes "ABSTAGE2") (set_modifiers os ms s)
        ≡ (if enables_stage2 ms then some (codes "1") else os.getenv (codes "ABSTAGE2") s)
  unfolding set_modifiers enables_stage2
  set_modifiers-stage2 [] s = refl
  set_modifiers-stage2 (m ∷ ms) s =
      ground (arith, set_modifiers-stage2 ms (set_modifier os m s), set_modifier-stage2 m s)

  -- Modifiers that are written out in `ABMODIFIERS` are set: each name in capital letters has the
  -- value of its last modifier, no other name has one, and `ABSTAGE2` is set just if some modifier
  -- enables it.
  pub ab_parse_set_modifiers-last :
      (ms : List Modifier) (s : S)
      → os.getenv (codes "ABMODIFIERS") s ≡ some (print_modifiers ms)
      → all is_name ms ≡ true
      → (os.make_modifiers s).1 ≡ true
      → (t : S) × (ab_parse_set_modifiers os s ≡ some (t, 0))
        × ((key : Bytes) → setting key t ≡ last_setting key ms)
        × (os.getenv (codes "ABSTAGE2") t
            ≡ (if enables_stage2 ms then some (codes "1") else os.getenv (codes "ABSTAGE2") s))
  unfolding ab_parse_set_modifiers
  ab_parse_set_modifiers-last ms s has names made =
      let t = os.mark (os.make_modifiers s).0 in
      let fresh : (key : Bytes) → setting key t ≡ none =
        λ key. kept.setting-mark key (os.make_modifiers s).0 ∙ kept.setting-make key s in
      let same =
        kept.getenv-mark (codes "ABSTAGE2") (os.make_modifiers s).0
        ∙ kept.getenv-make (codes "ABSTAGE2") s in
      (
        set_modifiers os ms t,
        rw (ab_parse_set_modifiers, has, parse_modifiers-print ms names, made) refl,
        λ key.
            set_modifiers-setting key ms t
            ∙ ap (or_old (last_setting key ms)) (fresh key)
            ∙ or_old_none (last_setting key ms),
        rw (set_modifiers-stage2 ms t, same) refl,
      )
