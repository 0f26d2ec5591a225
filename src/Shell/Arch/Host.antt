-- ===== src/Shell/Arch/Host.antt =====
-- What `set_arch_variables` of native/abnativefunctions.cpp sets.
use autobuild.Base.{
  false, List, [], ◌∷◌, map, Option, none, some, Bytes, codes, contains, ◌≡◌, refl, ap,
}
use autobuild.JsonData.{jsondata_get_arch_groups}
use autobuild.JsonData.Groups.{is_member, first_entry, arch_groups-member, arch_targets-first}
use autobuild.Shell.Array.{Address, Heap}
use autobuild.Shell.Array.Ring.{IsArray, IsCreator, values}
use autobuild.Shell.Listing.{push_all}
use autobuild.Shell.Listing.Lines.{push_all-IsFilled}
use autobuild.Shell.Arch.{
  Setup, Globals, is_empty, this_arch, arch_triple, globals_of, set_from, set_arch_variables,
  get_self_path,
}

-- The first target of the architecture, or an empty text.
unfoldable pub target_of : List (Bytes × Bytes) → Bytes → Bytes
target_of targets host = elim (first_entry targets host) [ none ↦ [] | some triple ↦ triple ]

-- With the files of autobuild under a path that is set, everything succeeds: `ARCH`, `ABHOST` and
-- `ABBUILD` are the architecture, `HOST` and `BUILD` its first target, or empty if it has none, and
-- `ABHOST_GROUP` has the groups that the architecture is a member of, and no others.
pub set_arch_variables-host :
    (setup : Setup) (creator : IsCreator setup.create_element) (arch : Option Bytes) (heap : Heap)
    (ab_path host : Bytes) (targets : List (Bytes × Bytes)) (groups : List (Bytes × List Bytes))
    → get_self_path (setup.find_variable (codes "AB")) ≡ some ab_path
    → is_empty ab_path ≡ false
    → setup.arch_targets ab_path ≡ some targets
    → setup.arch_groups ab_path ≡ some groups
    → this_arch setup arch ≡ some host
    → IsArray (setup.make_array heap).1 (setup.make_array heap).0 []
    → (globals : Globals) × (names : List Bytes) × (xs : List Address) × (set_arch_variables setup
          arch heap
        ≡ some (some globals))
      × (globals.bound
          ≡ (codes "ARCH", host)
            ∷ (codes "ABHOST", host)
            ∷ (codes "ABBUILD", host)
            ∷ (codes "HOST", target_of targets host)
            ∷ (codes "BUILD", target_of targets host)
            ∷ [])
      × IsArray globals.heap globals.groups xs
      × (values globals.heap xs ≡ map some names)
      × ((name : Bytes) → contains names name ≡ is_member name host groups)
unfolding set_arch_variables set_from globals_of arch_triple target_of values
set_arch_variables-host setup creator arch heap ab_path host targets groups path nonempty
      has_targets has_groups is_host empty =
    let (array, made) = setup.make_array heap in
    let names = jsondata_get_arch_groups groups host in
    let filled = push_all-IsFilled setup.create_element creator names array made [] empty in
    let (result, after) = push_all setup.create_element names array made in
    let triple : arch_triple setup targets host ≡ target_of targets host =
      ap (λ (found : Option Bytes). elim found [ none ↦ [] | some found ↦ found ])
        (arch_targets-first targets host) in
    (
      globals_of setup targets groups host heap,
      names,
      filled.ring,
      rw (set_arch_variables, path, nonempty, has_targets, is_host, has_groups) refl,
      ap
          (λ found.
            (codes "ARCH", host)
            ∷ (codes "ABHOST", host)
            ∷ (codes "ABBUILD", host)
            ∷ (codes "HOST", found)
            ∷ (codes "BUILD", found)
            ∷ [])
          triple,
      filled.holds,
      filled.filled,
      arch_groups-member groups host,
    )
