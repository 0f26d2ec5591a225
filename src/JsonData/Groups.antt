-- ===== src/JsonData/Groups.antt =====
-- Which groups and targets native/abjsondata.cpp finds.
use autobuild.Base.{
  Bool, false, ◌&&◌, ◌||◌, List, [], ◌∷◌, ◌++◌, if◌then◌else◌, none, some, Bytes, equal, contains,
  or_assoc, or_false, ◌≡◌, refl, ap, sym, ◌∙◌, arith, Bool-cases, inl, inr,
}
use autobuild.JsonData.{
  push_group, push_groups, jsondata_get_arch_groups, emplace_each, jsondata_get_arch_targets, Map,
}

-- Some group of the name has the architecture.
unfoldable pub is_member : Bytes → Bytes → List (Bytes × List Bytes) → Bool
is_member name this_arch [] = false
is_member name this_arch ((group_name, group) ∷ arch_groups) =
    equal group_name name && contains group this_arch || is_member name this_arch arch_groups

contains-append :
    (xs ys : List Bytes) (x : Bytes) → contains (xs ++ ys) x ≡ (contains xs x || contains ys x)
unfolding contains
contains-append [] ys x = refl
contains-append (z ∷ xs) ys x =
    ap (λ b. equal z x || b) (contains-append xs ys x)
    ∙ or_assoc (equal z x) (contains xs x) (contains ys x)

contains-push_group :
    (group_name this_arch name : Bytes) (group groups : List Bytes)
    → contains (push_group group_name this_arch group groups) name
      ≡ (contains groups name || (equal group_name name && contains group this_arch))
unfolding push_group contains
contains-push_group group_name this_arch name [] groups = ground arith
contains-push_group group_name this_arch name (arch_value ∷ group) groups =
    let one = contains-append groups (group_name ∷ []) name in
    elim (Bool-cases (equal arch_value this_arch)) [
      | inl hit ↦ rw hit (
          contains-push_group group_name this_arch name group (groups ++ group_name ∷ [])
          ∙ ground (arith, one))
      | inr miss ↦ rw miss (contains-push_group group_name this_arch name group groups)
    ]

contains-push_groups :
    (this_arch name : Bytes) (arch_groups : List (Bytes × List Bytes)) (groups : List Bytes)
    → contains (push_groups this_arch arch_groups groups) name
      ≡ (contains groups name || is_member name this_arch arch_groups)
unfolding push_groups is_member
contains-push_groups this_arch name [] groups = sym (or_false (contains groups name))
contains-push_groups this_arch name ((group_name, group) ∷ arch_groups) groups =
    contains-push_groups this_arch name arch_groups (push_group group_name this_arch group groups)
    ∙ ap (λ b. b || is_member name this_arch arch_groups)
        (contains-push_group group_name this_arch name group groups)
    ∙ sym (or_assoc (contains groups name) _ _)

-- The groups of an architecture are those that have it in their array, whatever the order.
pub arch_groups-member :
    (arch_groups : List (Bytes × List Bytes)) (this_arch name : Bytes)
    → contains (jsondata_get_arch_groups arch_groups this_arch) name
      ≡ is_member name this_arch arch_groups
unfolding jsondata_get_arch_groups contains
arch_groups-member arch_groups this_arch name = contains-push_groups this_arch name arch_groups []

-- The first entry of a key.
unfoldable pub first_entry : List (Bytes × Bytes) → Map
first_entry [] key = none
first_entry ((other, value) ∷ entries) key =
    let rest = first_entry entries key in if equal other key then some value else rest

emplace_each-first :
    (arch_targets : List (Bytes × Bytes)) (entries : Map) (key : Bytes)
    → emplace_each arch_targets entries key
      ≡ elim (entries key) [ some old ↦ some old | none ↦ first_entry arch_targets key ]
unfolding emplace_each first_entry
emplace_each-first [] entries key = ground arith
emplace_each-first ((other, value) ∷ arch_targets) entries key =
    emplace_each-first arch_targets _ key ∙ ground arith

pub arch_targets-first :
    (arch_targets : List (Bytes × Bytes)) (key : Bytes)
    → jsondata_get_arch_targets arch_targets key ≡ first_entry arch_targets key
unfolding jsondata_get_arch_targets
arch_targets-first arch_targets key = emplace_each-first arch_targets (λ other. none) key
