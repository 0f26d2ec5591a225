-- ===== src/Shell/Types/Tests.antt =====
-- The statement about the check of types at an array.
use autobuild.Base.{
  ℕ, true, false, [], ◌∷◌, ◌≡◌, refl, some, none, codes, Bytes, Option, List, if◌then◌else◌,
}
use autobuild.Shell.{cells, Var}
use autobuild.Shell.Words.{WordList}
use autobuild.Shell.Types.{ab_typecheck, find_either}
use autobuild.Shell.Types.Options.{is_option, fits_any, ab_typecheck-fits}

abbrev listing : Var
listing = record {
  name = codes "xs";
  is_array = true;
  is_function = false;
  is_integer = false;
  is_assoc = false;
  value = cells [];
}

abbrev always : Bytes → Option Var
always name = some listing

abbrev never : Bytes → Option Var
never name = none

-- The options `-h -s` behind which the name stands.
abbrev options : WordList → List ℕ × WordList
options list = (b'h' ∷ b's' ∷ [], some (codes "xs") ∷ [])

ab_typecheck-fits_example :
    ab_typecheck always never options [] ≡ (if fits_any listing (b'h' ∷ b's' ∷ []) then 0 else 1)
unfolding is_option find_either
ab_typecheck-fits_example =
    ab_typecheck-fits always never options [] [] (b'h' ∷ b's' ∷ []) (codes "xs") listing refl refl
      refl
