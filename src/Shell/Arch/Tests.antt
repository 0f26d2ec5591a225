-- ===== src/Shell/Arch/Tests.antt =====
-- The architecture `amd64` in two small files, a listing, and the statements about them.
use autobuild.Base.{
  true, false, List, [], ◌∷◌, ◌≡◌, refl, Option, some, none, Bytes, codes, map, keep, contains,
  ◌==◌, ◌+◌, equal, done, arith, if◌then◌else◌,
}
use autobuild.JsonData.Groups.{is_member}
use autobuild.Shell.{text, Var}
use autobuild.Shell.Array.{Address, Element, Heap, Array, Store, update}
use autobuild.Shell.Array.Ring.{IsArray, values}
use autobuild.Shell.Array.Tests.{create, create-IsCreator}
use autobuild.Shell.Listing.{ab_read_listing_file}
use autobuild.Shell.Listing.Lines.{is_entry, ab_read_listing_file-entries}
use autobuild.Shell.Arch.{Setup, Globals, this_arch, get_self_path, set_arch_variables}
use autobuild.Shell.Arch.Host.{target_of, set_arch_variables-host}

-- An array with its head at the bound.
abbrev make : Heap → Array × Heap
make heap = (
  record { head = heap.bound; lastref = none; num_elements = 0 },
  record {
    element = λ a.
        if a == heap.bound
        then record { ind = 0; value = none; next = some heap.bound; prev = some heap.bound }
        else heap.element a;
    bound = heap.bound + 1;
  },
)

abbrev no_element : Address → Element
no_element a = record { ind = 0; value = none; next = none; prev = none }

abbrev unused : Heap
unused = record { element = no_element; bound = 0 }

make-IsArray : IsArray (make unused).1 (make unused).0 []
make-IsArray = record {
  ring = record { chain = refl; distinct = (tt, tt); below = (omega arith, tt) };
  last = refl;
  count = refl;
}

abbrev path_var : Var
path_var = record {
  name = codes "AB";
  is_array = false;
  is_function = false;
  is_integer = false;
  is_assoc = false;
  value = text (codes "/ab");
}

abbrev targets : List (Bytes × Bytes)
targets = (codes "amd64", codes "x86_64-aosc-linux-gnu") ∷ []

abbrev groups : List (Bytes × List Bytes)
groups =
    (codes "mainline", codes "amd64" ∷ codes "arm64" ∷ []) ∷ (codes "retro", codes "i486" ∷ []) ∷ []

abbrev setup : Setup
setup = record {
  find_variable = λ name. if equal name (codes "AB") then some path_var else none;
  set_self_path = true;
  arch_targets = λ path. some targets;
  arch_groups = λ path. some groups;
  create_element = create;
  make_array = make;
  native_arch_name = codes "amd64";
}

set_arch_variables-host_example :
    (globals : Globals) × (names : List Bytes) × (xs : List Address) × (set_arch_variables setup
        none unused
      ≡ some (some globals))
    × (globals.bound
        ≡ (codes "ARCH", codes "amd64")
          ∷ (codes "ABHOST", codes "amd64")
          ∷ (codes "ABBUILD", codes "amd64")
          ∷ (codes "HOST", target_of targets (codes "amd64"))
          ∷ (codes "BUILD", target_of targets (codes "amd64"))
          ∷ [])
    × IsArray globals.heap globals.groups xs
    × (values globals.heap xs ≡ map some names)
    × ((name : Bytes) → contains names name ≡ is_member name (codes "amd64") groups)
unfolding get_self_path this_arch equal
set_arch_variables-host_example =
    set_arch_variables-host setup create-IsCreator none unused (codes "/ab") (codes "amd64") targets
      groups refl refl refl refl refl make-IsArray

abbrev no_arrays : Store
no_arrays = record { find_array = λ name. none; heap = unused }

abbrev lines : List Bytes
lines = codes "# names" ∷ codes "zlib" ∷ []

abbrev read_lines : Bytes → Option (List Bytes)
read_lines filename = some lines

ab_read_listing_file-entries_example :
    (array : Array) × (after : Heap) × (xs : List Address) × (ab_read_listing_file create read_lines
        make
        (some (codes "f") ∷ some (codes "xs") ∷ [])
        no_arrays
      ≡ done (update (codes "xs") array after no_arrays, 0))
    × IsArray after array xs
    × (values after xs ≡ map some (keep is_entry lines))
ab_read_listing_file-entries_example =
    ab_read_listing_file-entries create create-IsCreator read_lines make (codes "f") (codes "xs") []
      lines no_arrays refl make-IsArray refl
