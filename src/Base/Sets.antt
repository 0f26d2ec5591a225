-- ===== src/Base/Sets.antt =====
-- Sets of byte strings (`std::unordered_set<std::string>`) as lists without repetition. Their
-- order is not the program's, so statements speak of `contains`.
use mathlib.Core.Bool.{Bool, true, false, ◌||◌}
use mathlib.Core.List.{List, [], ◌∷◌}
use mathlib.Core.Path.{◌≡◌, refl, sym, ◌∙◌, ap}
use mathlib.Core.Logic.{inl, inr}
use native.Mathlib.Omega.{arith}
use autobuild.Base.Tests.{if◌then◌else◌, Bool-cases}
use autobuild.Base.Text.{Bytes, equal, equal_iff}

unfoldable pub contains : List Bytes → Bytes → Bool
contains [] x = false
contains (y ∷ ys) x = equal y x || contains ys x

unfoldable pub emplace : Bytes → List Bytes → List Bytes
emplace x s = if contains s x then s else x ∷ s

-- `insert(begin, end)`.
unfoldable pub insert_all : List Bytes → List Bytes → List Bytes
insert_all [] s = s
insert_all (x ∷ xs) s = insert_all xs (emplace x s)

pub or_assoc : (a b c : Bool) → (a || (b || c)) ≡ ((a || b) || c)
or_assoc true b c = refl
or_assoc false b c = refl

pub or_comm : (a b : Bool) → (a || b) ≡ (b || a)
or_comm true true = refl
or_comm true false = refl
or_comm false true = refl
or_comm false false = refl

pub or_false : (a : Bool) → (a || false) ≡ a
or_false true = refl
or_false false = refl

pub contains-emplace :
    (x y : Bytes) (s : List Bytes) → contains (emplace x s) y ≡ (contains s y || equal x y)
unfolding emplace contains
contains-emplace x y s = elim (Bool-cases (contains s x)) [
  | inl old ↦ ground (arith, equal_iff x y, old, or_comm (contains s y) (equal x y))
  | inr new ↦ rw new (or_comm (equal x y) (contains s y))
]

pub contains-insert_all :
    (xs s : List Bytes) (y : Bytes) → contains (insert_all xs s) y ≡ (contains s y || contains xs y)
unfolding insert_all contains
contains-insert_all [] s y = sym (or_false (contains s y))
contains-insert_all (x ∷ xs) s y =
    contains-insert_all xs (emplace x s) y
    ∙ ap (λ b. b || contains xs y) (contains-emplace x y s)
    ∙ sym (or_assoc (contains s y) (equal x y) (contains xs y))
