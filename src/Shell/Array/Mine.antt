-- ===== src/Shell/Array/Mine.antt =====
-- `abmm_array_mine` and `abmm_array_mine_remove` of native/abnativefunctions.cpp.
use autobuild.Base.{
  ℕ, ◌<◌, ◌≤◌, false, ltb, le→ltb, List, [], ◌∷◌, Option, none, some, Bytes, codes, Outcome, done,
  then_do, ◌≡◌, refl, ap, ◌∙◌, arith,
}
use autobuild.Shell.Array.{
  Address, Heap, Array, set_next, bash_array_push, abmm_array_mine, abmm_array_mine_remove,
}
use autobuild.Shell.Array.Ring.{
  Chain, Below, IsRing, IsArray, values, IsCreator, Apart-Below, Below-mono,
}
use autobuild.Shell.Array.Link.{made-last, create-IsMade, next_at, next_other, value_kept}
use autobuild.Shell.Array.Push.{Chain-kept, values-kept}

-- The elements of the one memory are led to and valued as in the other.
record IsSame (heap other : Heap) : Type 0 where
  same_next : (a : Address) → a < heap.bound → (other.element a).next ≡ (heap.element a).next
  same_value : (a : Address) → a < heap.bound → (other.element a).value ≡ (heap.element a).value
  higher : heap.bound ≤ other.bound

Chain-same :
    (heap other : Heap) (a b : Address) (xs : List Address)
    → IsSame heap other
    → Below heap.bound (a ∷ xs)
    → Chain heap a xs b
    → Chain other a xs b
Chain-same heap other a b [] same below chain = same.same_next a below.0 ∙ chain
Chain-same heap other a b (x ∷ xs) same below (first, chain) =
    (same.same_next a below.0 ∙ first, Chain-same heap other x b xs same below.1 chain)

values-same :
    (heap other : Heap) (xs : List Address)
    → IsSame heap other
    → Below heap.bound xs
    → values other xs ≡ values heap xs
unfolding values
values-same heap other [] same below = refl
values-same heap other (x ∷ xs) same (low, below) =
    rw (same.same_value x low, values-same heap other xs same below) refl

module _ (create_element : ℕ → Option Bytes → Heap → Address × Heap)
    (creator : IsCreator create_element) where
  -- The mine is set and taken away, and then a value is pushed.
  unfoldable pub mined_push : Array → Option Bytes → Heap → Outcome (Array × Heap)
  mined_push array value heap =
      let (mined, planted, set) = abmm_array_mine create_element array heap in
      then_do (abmm_array_mine_remove mined planted)
        λ (cleared, removed, taken). done (bash_array_push create_element cleared value removed)

  module _ (array : Array) (value : Option Bytes) (heap : Heap) where
    abbrev mine : Address
    mine = (create_element 0 (some (codes "---PLEASE_MIGRATE_TO_ARRAY---")) heap).0

    abbrev created : Heap
    created = (create_element 0 (some (codes "---PLEASE_MIGRATE_TO_ARRAY---")) heap).1

    abbrev removed : Heap
    removed = set_next mine none (set_next mine (some array.head) created)

    abbrev cleared : Array
    cleared = record array { lastref = some array.head }

    removed-IsSame : IsSame heap removed
    removed-IsSame =
        let message = some (codes "---PLEASE_MIGRATE_TO_ARRAY---") in
        let high = creator.unused 0 message heap in
        let planted = set_next mine (some array.head) created in
        record {
          same_next = λ a low.
              next_other mine a none planted (λ same. omega (arith, low, same, high))
              ∙ next_other mine a (some array.head) created (λ same. omega (arith, low, same, high))
              ∙ ap (λ e. e.next) (creator.old_element 0 message heap a low);
          same_value = λ a low.
              value_kept mine a none planted
              ∙ value_kept mine a (some array.head) created
              ∙ ap (λ e. e.value) (creator.old_element 0 message heap a low);
          higher = omega (arith, high, creator.in_use 0 message heap);
        }

    mined_push-cleared :
        ltb array.num_elements 1 ≡ false
        → mined_push array value heap ≡ done (bash_array_push create_element cleared value removed)
    unfolding mined_push abmm_array_mine abmm_array_mine_remove
    mined_push-cleared some_element =
        rw (some_element, some_element, next_at mine (some array.head) created) refl

  -- Behind a mine that was set and taken away, a value is pushed not to the end but to the front.
  pub mined_push-front :
      (array : Array) (value : Option Bytes) (heap : Heap) (x : Address) (xs : List Address)
      → IsArray heap array (x ∷ xs)
      → (new : Address) × (pushed : Array) × (after : Heap) × (mined_push array value heap
          ≡ done (pushed, after))
        × IsRing after array.head (new ∷ x ∷ xs)
        × (values after (new ∷ x ∷ xs) ≡ value ∷ values heap (x ∷ xs))
  unfolding bash_array_push values
  mined_push-front array value heap x xs holds =
      let before = removed array value heap in
      let same = removed-IsSame array value heap in
      let below = holds.ring.below in
      let low : array.head < before.bound = omega (arith, below.0, same.higher) in
      let leads = same.same_next array.head below.0 ∙ holds.ring.chain.0 in
      let made =
        create-IsMade create_element creator array.num_elements value (some array.head) before in
      let push = made-last before _ array.head _ x value made low leads in
      let (pushed, after) =
        bash_array_push create_element (cleared array value heap) value before in
      let new = (create_element array.num_elements value before).0 in
      let all_below = Below-mono heap.bound before.bound (array.head ∷ x ∷ xs) same.higher below in
      (
        new,
        pushed,
        after,
        mined_push-cleared array value heap
            (le→ltb array.num_elements 1 (omega (arith, holds.count))),
        record {
          chain = (
            push.from_last,
            (
              push.from_new,
              Chain-kept before after x array.head new x array.head xs value push
                  (Chain-same heap before x array.head xs same below.1 holds.ring.chain.1)
                  all_below.1 holds.ring.distinct.0,
            ),
          );
          distinct = (
            (λ equal. omega (arith, low, equal, push.new_high), holds.ring.distinct.0),
            (
              Apart-Below before.bound new (x ∷ xs) push.new_high all_below.1,
              holds.ring.distinct.1,
            ),
          );
          below = (
            omega (arith, low, push.new_high, push.new_used),
            (
              push.new_used,
              Below-mono before.bound after.bound (x ∷ xs)
                  (omega (arith, push.new_high, push.new_used)) all_below.1,
            ),
          );
        },
        ap (λ v. v ∷ values after (x ∷ xs)) push.stored
            ∙ ap (λ vs. value ∷ vs)
                (values-kept before after array.head new x (x ∷ xs) value push all_below.1
                  ∙ values-same heap before (x ∷ xs) same below.1),
      )
