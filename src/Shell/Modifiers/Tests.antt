-- ===== src/Shell/Modifiers/Tests.antt =====
-- An environment that is a list, and the statements about modifiers there.
use autobuild.Base.{
  true, false, List, [], ◌∷◌, all, Option, none, some, Bytes, codes, equal, equal_refl,
  if◌then◌else◌, ◌≡◌, refl,
}
use autobuild.Shell.Modifiers.{
  Modifier, Environment, parse_modifiers, scan_loop, scan_step, push_modifier, last_modifier,
  ab_parse_set_modifiers,
}
use autobuild.Shell.Modifiers.Names.{is_name, is_plain, parse_modifiers-names}
use autobuild.Shell.Modifiers.RoundTrip.{print_modifiers}
use autobuild.Shell.Modifiers.Setting.{
  last_setting, enables_stage2, IsKept, ab_parse_set_modifiers-last,
}

abbrev two : List Modifier
two =
    record { name = codes "stage2"; enabled = true }
    ∷ record { name = codes "pkgbreak"; enabled = false }
    ∷ []

print_modifiers-two : print_modifiers two ≡ codes "+stage2,-pkgbreak"
unfolding print_modifiers
print_modifiers-two = refl

parse_modifiers-names_example : all is_name two ≡ true
unfolding parse_modifiers scan_loop scan_step push_modifier last_modifier
parse_modifiers-names_example = parse_modifiers-names (codes "+stage2,-pkgbreak") two refl

-- A sign inside a name only changes the setting: the name goes on behind it.
parse_modifiers_sign :
    parse_modifiers (codes "+a-b") ≡ some (record { name = codes "ab"; enabled = false } ∷ [])
unfolding parse_modifiers scan_loop scan_step push_modifier last_modifier
parse_modifiers_sign = refl

-- The environment, and the associative array.
abbrev World : Type 0
World = List (Bytes × Bytes) × List (Bytes × Bytes)

abbrev find : Bytes → List (Bytes × Bytes) → Option Bytes
find key [] = none
find key ((name, value) ∷ rest) =
    let later = find key rest in if equal name key then some value else later

abbrev os : Environment World
os = record {
  ex_badassign = 260;
  getenv = λ key world. find key world.0;
  setenv = λ key value world. ((key, value) ∷ world.0, world.1);
  make_modifiers = λ world. ((world.0, []), true);
  mark = λ world. world;
  put = λ key value world. (world.0, (key, value) ∷ world.1);
  info = λ message world. world;
  error = λ message world. world;
}

abbrev setting : Bytes → World → Option Bytes
setting key world = find key world.1

os-IsKept : IsKept os setting
os-IsKept = record {
  setting-make = λ key world. refl;
  setting-mark = λ key world. refl;
  setting-info = λ key message world. refl;
  setting-setenv = λ key name value world. refl;
  setting-put = λ key name value world. refl;
  getenv-make = λ key world. refl;
  getenv-mark = λ key world. refl;
  getenv-info = λ key message world. refl;
  getenv-put = λ key name value world. refl;
  getenv-setenv = λ key value world. rw (equal_refl key) refl;
}

abbrev start_world : World
start_world = ((codes "ABMODIFIERS", codes "+stage2,-pkgbreak") ∷ [], [])

ab_parse_set_modifiers-last_example :
    (t : World) × (ab_parse_set_modifiers os start_world ≡ some (t, 0))
    × ((key : Bytes) → setting key t ≡ last_setting key two)
    × (os.getenv (codes "ABSTAGE2") t ≡ (
        if enables_stage2 two then some (codes "1") else os.getenv (codes "ABSTAGE2") start_world))
unfolding equal print_modifiers is_name is_plain
ab_parse_set_modifiers-last_example =
    ab_parse_set_modifiers-last os setting os-IsKept two start_world refl refl refl
