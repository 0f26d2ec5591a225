-- ===== src/Shell/Filter/Freed.antt =====
-- What `ab_filter_args` of native/abnativefunctions.cpp does on an array.
use autobuild.Base.{
  ℕ, zero, suc, ◌≤◌, Bool, true, false, ◌||◌, List, [], ◌∷◌, if◌then◌else◌, Option, none, some,
  Bytes, contains, length, ◌≡◌, ◌≢◌, refl, sym, ap, ◌∙◌, arith,
}
use autobuild.Shell.Words.{WordList, get_all_args_vector}
use autobuild.Shell.Array.{Address, Heap, Array, Store, update, set_next, set_prev}
use autobuild.Shell.Array.Ring.{Chain, Apart, IsRing}
use autobuild.Shell.Array.Link.{==_apart, ==_refl}
use autobuild.Shell.Array.Join.{Holds}
use autobuild.Shell.Filter.{
  Memory, Result, finished, freed_used, and_then, fresh, read, write_next, write_prev, unlink,
  filter_element, filter_loop, ab_filter_args,
}

-- One of the texts is to be removed.
unfoldable pub any_removed : List Bytes → List Bytes → Bool
any_removed to_remove [] = false
any_removed to_remove (t ∷ texts) = contains to_remove t || any_removed to_remove texts

-- From `a` over the elements, each leads back to the one before it.
abbrev pub Backward : Heap → Address → List Address → Type 0
Backward heap a [] = Unit
Backward heap a (x ∷ xs) = ((heap.element x).prev ≡ some a) × Backward heap x xs

write_next-freed {ℓ κ} :
    {A : Type ℓ} {B : Type κ}
    → (heap : Heap) (p q : Option Address) (f : Memory → Result A) (k : A → Result B) → p ≢ none
    → ((b : Address) → and_then (f (fresh (set_next b q heap))) k ≡ freed_used)
    → and_then (and_then (write_next (fresh heap) p q) f) k ≡ freed_used
unfolding write_next
write_next-freed heap none q f k h uses = absurd (h refl)
write_next-freed heap (some b) q f k h uses = uses b

write_prev-freed {ℓ κ} :
    {A : Type ℓ} {B : Type κ}
    → (heap : Heap) (p q : Option Address) (f : Memory → Result A) (k : A → Result B) → p ≢ none
    → ((b : Address) → and_then (f (fresh (set_prev b q heap))) k ≡ freed_used)
    → and_then (and_then (write_prev (fresh heap) p q) f) k ≡ freed_used
unfolding write_prev
write_prev-freed heap none q f k h uses = absurd (h refl)
write_prev-freed heap (some b) q f k h uses = uses b

-- An element's own next pointer, written to some element, stays its next pointer.
own_next_kept :
    (heap : Heap) (a b : Address)
    → ((set_next b (heap.element a).next heap).element a).next ≡ (heap.element a).next
own_next_kept heap a b = ground arith

-- An element with both neighbours is taken out and gone, so what reads it again uses memory that was
-- given back.
unlink-freed {ℓ} :
    {A : Type ℓ}
    → (heap : Heap) (array : Array) (a : Address) (k : Memory × Array → Result A)
    → (heap.element a).prev ≢ none
    → (heap.element a).next ≢ none
    → ((filtered : Memory) (changed : Array)
        → filtered.freed a ≡ true
        → k (filtered, changed) ≡ freed_used)
    → and_then (unlink (fresh heap) array a) k ≡ freed_used
unfolding unlink read
unlink-freed heap array a k has_prev has_next uses = write_next-freed heap _ _ _ k has_prev λ b.
    write_prev-freed (set_next b (heap.element a).next heap) _ _ _ k
      (λ gone. has_next (sym (own_next_kept heap a b) ∙ gone)) λ c. uses _ _ (rw (==_refl a) refl)

Chain-next :
    (heap : Heap) (a b : Address) (xs : List Address)
    → Chain heap a xs b
    → (heap.element a).next ≢ none
Chain-next heap a b [] chain = λ e. absurd (cc (chain, e))
Chain-next heap a b (x ∷ xs) chain = λ e. absurd (cc (chain.0, e))

Backward-prev :
    (heap : Heap) (a x : Address) → (heap.element x).prev ≡ some a → (heap.element x).prev ≢ none
Backward-prev heap a x back = λ e. absurd (cc (back, e))

removed-or-kept {ℓ κ} :
    {A : Type ℓ} {B : Type κ}
    → (removed : Bool) (m : Result A) (a : A) (k : A → Result B) → and_then m k ≡ freed_used
    → and_then (if removed then m else finished a) k ≡ (if removed then freed_used else k a)
removed-or-kept true m a k uses = uses
removed-or-kept false m a k uses = refl

and_then-if {ℓ κ} :
    {A : Type ℓ} {B : Type κ}
    → (removed : Bool) (a : A) (k : A → Result B)
    → and_then (if removed then freed_used else finished a) k
      ≡ (if removed then freed_used else k a)
and_then-if true a k = refl
and_then-if false a k = refl

freed-or {ℓ} :
    {A : Type ℓ}
    → (first others : Bool) (rest result : Result A)
    → rest ≡ (if others then freed_used else result)
    → (if first then freed_used else rest) ≡ (if first || others then freed_used else result)
freed-or true others rest result h = refl
freed-or false others rest result h = h

filter_element-removed :
    (heap : Heap) (array : Array) (a : Address) (t : Bytes) (to_remove : List Bytes)
    (k : Memory × Array → Result (Memory × Array))
    → (heap.element a).value ≡ some t
    → (heap.element a).prev ≢ none
    → (heap.element a).next ≢ none
    → ((filtered : Memory) (changed : Array)
        → filtered.freed a ≡ true
        → k (filtered, changed) ≡ freed_used)
    → and_then (filter_element to_remove (fresh heap) array a) k
      ≡ (if contains to_remove t then freed_used else k (fresh heap, array))
unfolding filter_element read
filter_element-removed heap array a t to_remove k holds has_prev has_next uses = rw holds (
    removed-or-kept (contains to_remove t) (unlink (fresh heap) array a) (fresh heap, array) k
      (unlink-freed heap array a k has_prev has_next uses))

filter_loop-any_removed :
    (xs : List Address) (texts : List Bytes) (fuel a : Address) (to_remove : List Bytes)
    (heap : Heap) (array : Array)
    → Chain heap a xs array.head
    → Apart array.head xs
    → Holds heap xs texts
    → Backward heap a xs
    → length xs ≤ fuel
    → filter_loop fuel to_remove (fresh heap) array (heap.element a).next
      ≡ (if any_removed to_remove texts then freed_used else finished (fresh heap, array))
unfolding filter_loop any_removed read
filter_loop-any_removed [] [] zero a to_remove heap array chain apart holds back enough =
    ap (λ p. filter_loop zero to_remove (fresh heap) array p) chain ∙ rw (==_refl array.head) refl
filter_loop-any_removed [] [] (suc fuel) a to_remove heap array chain apart holds back enough =
    ap (λ p. filter_loop (suc fuel) to_remove (fresh heap) array p) chain
    ∙ rw (==_refl array.head) refl
filter_loop-any_removed [] (t ∷ texts) fuel a to_remove heap array chain apart holds back enough =
    absurd holds
filter_loop-any_removed (x ∷ xs) [] fuel a to_remove heap array chain apart holds back enough =
    absurd holds
filter_loop-any_removed (x ∷ xs) (t ∷ texts) zero a to_remove heap array chain apart holds back
      enough =
    absurd (omega (arith, enough))
filter_loop-any_removed (x ∷ xs) (t ∷ texts) (suc fuel) a to_remove heap array chain apart holds
      back enough =
    let rest =
      filter_loop-any_removed xs texts fuel x to_remove heap array chain.1 apart.1 holds.1 back.1
        (omega (arith, enough)) in
    ap (λ p. filter_loop (suc fuel) to_remove (fresh heap) array p) chain.0
    ∙ rw (==_apart x array.head (λ same. apart.0 (sym same))) (
        filter_element-removed heap array x t to_remove _ holds.0 (Backward-prev heap a x back.0)
          (Chain-next heap x array.head xs chain.1) (λ filtered changed gone. rw gone refl)
        ∙ freed-or (contains to_remove t) (any_removed to_remove texts) _ _ rest)

-- On an array that has only texts, each element of which leads back to the one before it, the builtin
-- changes nothing and succeeds if none of the texts is to be removed, given a round for each element;
-- if one is, the builtin uses memory that it has given back.
pub ab_filter_args-any_removed :
    (fuel : ℕ) (name : Bytes) (patterns : WordList) (store : Store) (array : Array)
    (xs : List Address) (texts : List Bytes)
    → store.find_array name ≡ some array
    → IsRing store.heap array.head xs
    → Holds store.heap xs texts
    → Backward store.heap array.head xs
    → length xs ≤ fuel
    → ab_filter_args fuel (some name ∷ patterns) store ≡ (
        if any_removed (get_all_args_vector patterns) texts
        then freed_used
        else finished (update name array store.heap store, 0))
unfolding ab_filter_args
ab_filter_args-any_removed fuel name patterns store array xs texts has ring holds back enough =
    let loop =
      filter_loop-any_removed xs texts fuel array.head (get_all_args_vector patterns) store.heap
        array ring.chain ring.distinct.0 holds back enough in
    rw (ab_filter_args, has, loop)
      (and_then-if (any_removed (get_all_args_vector patterns) texts) (fresh store.heap, array) _)
