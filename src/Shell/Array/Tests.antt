-- ===== src/Shell/Array/Tests.antt =====
-- Two arrays in memory, and the statements about the builtins on arrays there.
use autobuild.Base.{
  ℕ, ◌+◌, ◌==◌, List, [], ◌∷◌, ◌++◌, Option, none, some, Bytes, codes, done, spin, if◌then◌else◌,
  ◌≡◌, refl, arith, equal,
}
use autobuild.Shell.Array.{Address, Element, Heap, Array, Store, update, ab_concatarray}
use autobuild.Shell.Array.Ring.{IsRing, IsArray, IsCreator, values}
use autobuild.Shell.Array.Link.{==_apart, ==_refl}
use autobuild.Shell.Array.Concat.{ab_concatarray-appends, ab_concatarray_self}
use autobuild.Shell.Array.Mine.{mined_push, mined_push-front}

-- An element is made at the bound.
abbrev pub create : ℕ → Option Bytes → Heap → Address × Heap
create ind value heap = (
  heap.bound,
  record {
    element = λ a.
        if a == heap.bound
        then record { ind = ind; value = value; next = none; prev = none }
        else heap.element a;
    bound = heap.bound + 1;
  },
)

pub create-IsCreator : IsCreator create
create-IsCreator = record {
  new_element = λ ind value heap. rw (==_refl heap.bound) refl;
  old_element =
      λ ind value heap a low. rw (==_apart a heap.bound λ same. omega (arith, low, same)) refl;
  unused = λ ind value heap. omega arith;
  in_use = λ ind value heap. omega arith;
}

abbrev node : Option Bytes → Address → Element
node value next = record { ind = 0; value = value; next = some next; prev = none }

-- `a` has its head at 0 and the elements 1 and 2, `b` its head at 3 and the element 4.
abbrev memory : Heap
memory = record {
  element = λ a.
      if a == 0
      then node none 1
      else if a == 1
      then node (some (codes "x")) 2
      else if a == 2
      then node (some (codes "y")) 0
      else if a == 3
      then node none 4
      else node (some (codes "z")) 3;
  bound = 5;
}

abbrev first : Array
first = record { head = 0; lastref = some 2; num_elements = 2 }

abbrev second : Array
second = record { head = 3; lastref = some 4; num_elements = 1 }

abbrev store : Store
store = record {
  find_array = λ name.
      if equal name (codes "a")
      then some first
      else if equal name (codes "b")
      then some second
      else none;
  heap = memory;
}

first-IsArray : IsArray memory first (1 ∷ 2 ∷ [])
first-IsArray = record {
  ring = record {
    chain = (refl, (refl, refl));
    distinct = (
      ((λ same. omega (arith, same)), ((λ same. omega (arith, same)), tt)),
      (((λ same. omega (arith, same)), tt), (tt, tt)),
    );
    below = (omega arith, (omega arith, (omega arith, tt)));
  };
  last = refl;
  count = refl;
}

second-IsRing : IsRing memory 3 (4 ∷ [])
second-IsRing = record {
  chain = (refl, refl);
  distinct = (((λ same. omega (arith, same)), tt), (tt, tt));
  below = (omega arith, (omega arith, tt));
}

ab_concatarray-appends_example :
    (news : List Address) × (array : Array) × (after : Heap) × (ab_concatarray create 1
        (some (codes "a") ∷ some (codes "b") ∷ [])
        store
      ≡ done (update (codes "a") array after store, 0))
    × IsArray after array ((1 ∷ 2 ∷ []) ++ news)
    × (values after ((1 ∷ 2 ∷ []) ++ news) ≡ values memory (1 ∷ 2 ∷ []) ++ values memory (4 ∷ []))
unfolding equal
ab_concatarray-appends_example =
    ab_concatarray-appends create create-IsCreator (codes "a") (codes "b") first second (1 ∷ 2 ∷ [])
      (4 ∷ []) [] store refl refl first-IsArray second-IsRing
      (
        ((λ same. omega (arith, same)), tt),
        (((λ same. omega (arith, same)), tt), (((λ same. omega (arith, same)), tt), tt)),
      )
      1 (omega arith)

ab_concatarray_self_example :
    ab_concatarray create 100 (some (codes "a") ∷ some (codes "a") ∷ []) store ≡ spin
unfolding equal
ab_concatarray_self_example =
    ab_concatarray_self create create-IsCreator (codes "a") first 1 (2 ∷ []) [] store refl
      first-IsArray 100

mined_push-front_example :
    (new : Address) × (pushed : Array) × (after : Heap) × (mined_push create create-IsCreator first
        (some (codes "w"))
        memory
      ≡ done (pushed, after))
    × IsRing after 0 (new ∷ 1 ∷ 2 ∷ [])
    × (values after (new ∷ 1 ∷ 2 ∷ []) ≡ some (codes "w") ∷ values memory (1 ∷ 2 ∷ []))
mined_push-front_example =
    mined_push-front create create-IsCreator first (some (codes "w")) memory 1 (2 ∷ [])
      first-IsArray
