-- ===== src/Shell/Array/Link.antt =====
-- The pointers that `bash_array_push` of native/abnativefunctions.cpp sets.
use autobuild.Base.{
  ℕ, ◌<◌, ◌≤◌, true, false, ◌==◌, List, [], ◌∷◌, Option, some, Bytes, ◌≡◌, ◌≢◌, refl, ap, ◌∙◌,
  arith, ==_iff,
}
use autobuild.Shell.Array.{Address, Heap, Array, set_next, set_prev, bash_array_push}
use autobuild.Shell.Array.Ring.{last_from, IsArray, IsCreator, last_from-Below, Chain-last}

-- What a push does to the elements: the last one leads to the new one, and that to the head.
pub record IsPushed (heap pushed : Heap) (last new head : Address) (value : Option Bytes)
    : Type 0 where
  pub others :
      (a : Address) → a < heap.bound → a ≢ last → (pushed.element a).next ≡ (heap.element a).next
  pub from_last : (pushed.element last).next ≡ some new
  pub from_new : (pushed.element new).next ≡ some head
  pub kept : (a : Address) → a < heap.bound → (pushed.element a).value ≡ (heap.element a).value
  pub stored : (pushed.element new).value ≡ value
  pub new_high : heap.bound ≤ new
  pub new_used : new < pushed.bound

-- The tests on addresses.
pub ==_refl : (a : Address) → (a == a) ≡ true
==_refl a = (==_iff a a).1 refl

pub ==_apart : (a b : Address) → a ≢ b → (a == b) ≡ false
==_apart a b h = ground (arith, h)

pub next_at :
    (a : Address) (next : Option Address) (heap : Heap)
    → ((set_next a next heap).element a).next ≡ next
next_at a next heap = rw (==_refl a) refl

pub next_other :
    (a b : Address) (next : Option Address) (heap : Heap)
    → b ≢ a
    → ((set_next a next heap).element b).next ≡ (heap.element b).next
next_other a b next heap h = rw (==_apart b a h) refl

pub value_kept :
    (a b : Address) (next : Option Address) (heap : Heap)
    → ((set_next a next heap).element b).value ≡ (heap.element b).value
value_kept a b next heap = ground arith

-- The memory when the new element is made, and not yet in the ring.
pub record IsMade (heap made : Heap) (new : Address) (value : Option Bytes) : Type 0 where
  pub same_next : (a : Address) → a < heap.bound → (made.element a).next ≡ (heap.element a).next
  pub same_value : (a : Address) → a < heap.bound → (made.element a).value ≡ (heap.element a).value
  pub new_value : (made.element new).value ≡ value
  pub above : heap.bound ≤ new
  pub used : new < made.bound

made-first :
    (heap made : Heap) (new head : Address) (value : Option Bytes)
    → IsMade heap made new value
    → head < heap.bound
    → IsPushed heap (set_next new (some head) (set_next head (some new) made)) head new head value
made-first heap made new head value h low = record {
  others = λ a small apart.
      next_other new a (some head) (set_next head (some new) made)
        (λ same. omega (arith, small, same, h.above))
      ∙ next_other head a (some new) made apart
      ∙ h.same_next a small;
  from_last =
      next_other new head (some head) (set_next head (some new) made)
        (λ same. omega (arith, low, same, h.above))
      ∙ next_at head (some new) made;
  from_new = next_at new (some head) (set_next head (some new) made);
  kept = λ a small.
      value_kept new a (some head) (set_next head (some new) made)
      ∙ value_kept head a (some new) made
      ∙ h.same_value a small;
  stored =
      value_kept new new (some head) (set_next head (some new) made)
      ∙ value_kept head new (some new) made
      ∙ h.new_value;
  new_high = h.above;
  new_used = h.used;
}

pub made-last :
    (heap made : Heap) (last new head : Address) (value : Option Bytes)
    → IsMade heap made new value
    → last < heap.bound
    → (heap.element last).next ≡ some head
    → IsPushed heap
        (set_next last (some new) (set_next new (made.element last).next made))
        last
        new
        head
        value
made-last heap made last new head value h low leads =
    let next = (made.element last).next in
    record {
      others = λ a small apart.
          next_other last a (some new) (set_next new next made) apart
          ∙ next_other new a next made (λ same. omega (arith, small, same, h.above))
          ∙ h.same_next a small;
      from_last = next_at last (some new) (set_next new next made);
      from_new =
          next_other last new (some new) (set_next new next made)
            (λ same. omega (arith, low, same, h.above))
          ∙ next_at new next made
          ∙ h.same_next last low
          ∙ leads;
      kept = λ a small.
          value_kept last a (some new) (set_next new next made)
          ∙ value_kept new a next made
          ∙ h.same_value a small;
      stored =
          value_kept last new (some new) (set_next new next made)
          ∙ value_kept new new next made
          ∙ h.new_value;
      new_high = h.above;
      new_used = h.used;
    }

prev_kept :
    (a b : Address) (prev : Option Address) (heap : Heap)
    → (((set_prev a prev heap).element b).next ≡ (heap.element b).next)
      × (((set_prev a prev heap).element b).value ≡ (heap.element b).value)
prev_kept a b prev heap = ground arith

module _ (create_element : ℕ → Option Bytes → Heap → Address × Heap)
    (creator : IsCreator create_element) where
  pub create-IsMade :
      (ind : ℕ) (value : Option Bytes) (prev : Option Address) (heap : Heap)
      → let (new, created) = create_element ind value heap in
        IsMade heap (set_prev new prev created) new value
  create-IsMade ind value prev heap =
      let new = (create_element ind value heap).0 in
      let created = (create_element ind value heap).1 in
      record {
        same_next = λ a small.
            (prev_kept new a prev created).0
            ∙ ap (λ e. e.next) (creator.old_element ind value heap a small);
        same_value = λ a small.
            (prev_kept new a prev created).1
            ∙ ap (λ e. e.value) (creator.old_element ind value heap a small);
        new_value =
            (prev_kept new new prev created).1
            ∙ ap (λ e. e.value) (creator.new_element ind value heap);
        above = creator.unused ind value heap;
        used = creator.in_use ind value heap;
      }

  abbrev pub new_address : Array → Option Bytes → Heap → Address
  new_address array value heap = (create_element array.num_elements value heap).0

  pub push-IsPushed :
      (array : Array) (value : Option Bytes) (heap : Heap) (xs : List Address)
      → IsArray heap array xs
      → IsPushed heap
          (bash_array_push create_element array value heap).1
          (last_from array.head xs)
          (new_address array value heap)
          array.head
          value
  unfolding bash_array_push
  push-IsPushed array value heap [] holds =
      let made = create-IsMade array.num_elements value array.lastref heap in
      rw holds.last (made-first heap _ _ array.head value made holds.ring.below.0)
  push-IsPushed array value heap (x ∷ xs) holds =
      let made = create-IsMade array.num_elements value array.lastref heap in
      rw holds.last (
        made-last heap _ (last_from x xs) _ array.head value made
          (last_from-Below heap.bound x xs holds.ring.below.1)
          (Chain-last heap x xs array.head holds.ring.chain.1))
