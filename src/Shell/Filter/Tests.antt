-- ===== src/Shell/Filter/Tests.antt =====
-- `ab_filter_args` on an array of two elements.
use autobuild.Base.{
  ◌==◌, [], ◌∷◌, Option, none, some, Bytes, codes, if◌then◌else◌, ◌≡◌, refl, arith, equal, contains,
}
use autobuild.Shell.Array.{Address, Element, Heap, Array, Store, update}
use autobuild.Shell.Array.Ring.{IsRing}
use autobuild.Shell.Words.{get_all_args_vector}
use autobuild.Shell.Filter.{finished, freed_used, ab_filter_args}
use autobuild.Shell.Filter.Freed.{any_removed, ab_filter_args-any_removed}

abbrev linked : Option Bytes → Address → Address → Element
linked value prev next = record { ind = 0; value = value; next = some next; prev = some prev }

-- The head is at 0, and the elements at 1 and 2.
abbrev two_elements : Heap
two_elements = record {
  element = λ a.
      if a == 0
      then linked none 2 1
      else if a == 1
      then linked (some (codes "x")) 0 2
      else linked (some (codes "y")) 1 0;
  bound = 3;
}

abbrev words : Array
words = record { head = 0; lastref = some 2; num_elements = 2 }

abbrev word_store : Store
word_store = record {
  find_array = λ name. if equal name (codes "a") then some words else none;
  heap = two_elements;
}

words-IsRing : IsRing two_elements 0 (1 ∷ 2 ∷ [])
words-IsRing = record {
  chain = (refl, (refl, refl));
  distinct = (
    ((λ same. omega (arith, same)), ((λ same. omega (arith, same)), tt)),
    (((λ same. omega (arith, same)), tt), (tt, tt)),
  );
  below = (omega arith, (omega arith, (omega arith, tt)));
}

ab_filter_args-any_removed_example :
    ab_filter_args 2 (some (codes "a") ∷ some (codes "q") ∷ none ∷ some (codes "y") ∷ []) word_store
    ≡ freed_used
unfolding equal any_removed contains get_all_args_vector
ab_filter_args-any_removed_example =
    ab_filter_args-any_removed 2 (codes "a") (some (codes "q") ∷ none ∷ some (codes "y") ∷ [])
      word_store words (1 ∷ 2 ∷ []) (codes "x" ∷ codes "y" ∷ []) refl words-IsRing
      (refl, (refl, tt)) (refl, (refl, tt)) (omega arith)

filter_others :
    ab_filter_args 2 (some (codes "a") ∷ some (codes "q") ∷ []) word_store
    ≡ finished (update (codes "a") words word_store.heap word_store, 0)
unfolding equal any_removed contains get_all_args_vector
filter_others =
    ab_filter_args-any_removed 2 (codes "a") (some (codes "q") ∷ []) word_store words (1 ∷ 2 ∷ [])
      (codes "x" ∷ codes "y" ∷ []) refl words-IsRing (refl, (refl, tt)) (refl, (refl, tt))
      (omega arith)
