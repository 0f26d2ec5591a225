-- ===== src/Shell/Array/Push.antt =====
-- `bash_array_push` of native/abnativefunctions.cpp on an array whose fields agree with its ring.
use autobuild.Base.{
  ℕ, List, [], ◌∷◌, ◌++◌, Option, Bytes, ◌≡◌, refl, ap, sym, ◌∙◌, arith, length-append,
}
use autobuild.Shell.Array.{Address, Heap, Array, bash_array_push}
use autobuild.Shell.Array.Ring.{
  Chain, Distinct, Apart, Below, last_from, IsArray, values, IsCreator, Apart-Below, Below-mono,
  Apart-last_from, Distinct-snoc, Below-snoc, last_of-snoc,
}
use autobuild.Shell.Array.Link.{IsPushed, new_address, push-IsPushed}

Chain-push :
    (heap pushed : Heap) (a new head : Address) (xs : List Address) (value : Option Bytes)
    → IsPushed heap pushed (last_from a xs) new head value
    → Chain heap a xs head
    → Distinct (a ∷ xs)
    → Below heap.bound (a ∷ xs)
    → Chain pushed a (xs ++ new ∷ []) head
Chain-push heap pushed a new head [] value push chain distinct below =
    (push.from_last, push.from_new)
Chain-push heap pushed a new head (x ∷ xs) value push (first, chain) (apart, distinct)
      (low, below) =
    (
      push.others a low (Apart-last_from a x xs apart) ∙ first,
      Chain-push heap pushed x new head xs value push chain distinct below,
    )

-- A chain that does not pass the element that was last stays as it is.
pub Chain-kept :
    (heap pushed : Heap) (a last new head b : Address) (xs : List Address) (value : Option Bytes)
    → IsPushed heap pushed last new head value
    → Chain heap a xs b
    → Below heap.bound (a ∷ xs)
    → Apart last (a ∷ xs)
    → Chain pushed a xs b
Chain-kept heap pushed a last new head b [] value push chain (low, below) (other, apart) =
    push.others a low (λ same. other (sym same)) ∙ chain
Chain-kept heap pushed a last new head b (x ∷ xs) value push (first, chain) (low, below)
      (other, apart) =
    (
      push.others a low (λ same. other (sym same)) ∙ first,
      Chain-kept heap pushed x last new head b xs value push chain below apart,
    )

pub values-kept :
    (heap pushed : Heap) (last new head : Address) (xs : List Address) (value : Option Bytes)
    → IsPushed heap pushed last new head value
    → Below heap.bound xs
    → values pushed xs ≡ values heap xs
unfolding values
values-kept heap pushed last new head [] value push below = refl
values-kept heap pushed last new head (x ∷ xs) value push (low, below) =
    rw (push.kept x low, values-kept heap pushed last new head xs value push below) refl

values-snoc :
    (heap : Heap) (xs : List Address) (a : Address)
    → values heap (xs ++ a ∷ []) ≡ values heap xs ++ (heap.element a).value ∷ []
unfolding values
values-snoc heap [] a = refl
values-snoc heap (x ∷ xs) a = ap (λ rest. (heap.element x).value ∷ rest) (values-snoc heap xs a)

module _ (create_element : ℕ → Option Bytes → Heap → Address × Heap)
    (creator : IsCreator create_element) (array : Array) (value : Option Bytes) (heap : Heap)
    (xs : List Address) (holds : IsArray heap array xs) where
  abbrev pushed : Array × Heap
  pushed = bash_array_push create_element array value heap

  abbrev new : Address
  new = new_address create_element creator array value heap

  abbrev push : IsPushed heap pushed.1 (last_from array.head xs) new array.head value
  push = push-IsPushed create_element creator array value heap xs holds

  push-head : pushed.0.head ≡ array.head
  unfolding bash_array_push
  push-head = refl

  -- A push keeps the fields in agreement with the ring, in which the new element is the last.
  pub push-IsArray : IsArray pushed.1 pushed.0 (xs ++ new ∷ [])
  unfolding bash_array_push
  push-IsArray = record {
    ring = record {
      chain =
          Chain-push heap pushed.1 array.head new array.head xs value push holds.ring.chain
            holds.ring.distinct holds.ring.below;
      distinct =
          Distinct-snoc new (array.head ∷ xs)
            (Apart-Below heap.bound new (array.head ∷ xs) push.new_high holds.ring.below)
            holds.ring.distinct;
      below = Below-snoc pushed.1.bound new (array.head ∷ xs) push.new_used (
          Below-mono heap.bound pushed.1.bound (array.head ∷ xs)
            (omega (arith, push.new_high, push.new_used)) holds.ring.below);
    };
    last = sym (last_of-snoc xs new);
    count = omega (arith, holds.count, length-append xs (new ∷ []));
  }

  -- The values are those from before, and the new one behind them.
  pub values-push : values pushed.1 (xs ++ new ∷ []) ≡ values heap xs ++ value ∷ []
  values-push =
      values-snoc pushed.1 xs new
      ∙ ap (λ vs. vs ++ (pushed.1.element new).value ∷ [])
          (values-kept heap pushed.1 _ new array.head xs value push holds.ring.below.1)
      ∙ ap (λ v. values heap xs ++ v ∷ []) push.stored
