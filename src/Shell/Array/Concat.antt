-- ===== src/Shell/Array/Concat.antt =====
-- `ab_concatarray` of native/abnativefunctions.cpp: what it appends, and an array that is appended
-- to itself.
use autobuild.Base.{
  ℕ, zero, suc, ◌≤◌, List, [], ◌∷◌, ◌++◌, Option, some, Bytes, Outcome, done, spin, ◌≡◌, ◌≢◌, refl,
  ap, sym, ◌∙◌, arith, length, append_assoc, append-nil, subst,
}
use autobuild.Shell.Words.{WordList}
use autobuild.Shell.Array.{
  Address, Heap, Array, Store, update, bash_array_push, concat_loop, concatarray, ab_concatarray,
}
use autobuild.Shell.Array.Ring.{
  Chain, Apart, Below, last_from, IsRing, IsArray, values, IsCreator, Apart-Below, Below-mono,
}
use autobuild.Shell.Array.Link.{new_address, push-IsPushed, ==_apart, ==_refl}
use autobuild.Shell.Array.Push.{Chain-kept, values-kept, push-IsArray, values-push}

-- Each address of the one list differs from all of the other.
abbrev pub Separate : List Address → List Address → Type 0
Separate [] ys = Unit
Separate (x ∷ xs) ys = Apart x ys × Separate xs ys

Separate-last :
    (x : Address) (xs ys : List Address) → Separate (x ∷ xs) ys → Apart (last_from x xs) ys
Separate-last x [] ys (first, rest) = first
Separate-last x (y ∷ xs) ys (first, rest) = Separate-last y xs ys rest

Separate-snoc :
    (new : Address) (xs ys : List Address)
    → Apart new ys
    → Separate xs ys
    → Separate (xs ++ new ∷ []) ys
Separate-snoc new [] ys apart separate = (apart, tt)
Separate-snoc new (x ∷ xs) ys apart (first, rest) = (first, Separate-snoc new xs ys apart rest)

Separate-rest : (xs ys : List Address) (y : Address) → Separate xs (y ∷ ys) → Separate xs ys
Separate-rest [] ys y separate = tt
Separate-rest (x ∷ xs) ys y ((other, first), rest) = (first, Separate-rest xs ys y rest)

Apart-middle : (a b : Address) (pre rest : List Address) → Apart a (pre ++ b ∷ rest) → a ≢ b
Apart-middle a b [] rest (first, apart) = first
Apart-middle a b (x ∷ pre) rest (first, apart) = Apart-middle a b pre rest apart

Chain-middle :
    (heap : Heap) (a b c e : Address) (pre rest : List Address)
    → Chain heap a (pre ++ b ∷ c ∷ rest) e
    → (heap.element b).next ≡ some c
Chain-middle heap a b c e [] rest (first, chain) = chain.0
Chain-middle heap a b c e (x ∷ pre) rest (first, chain) = Chain-middle heap x b c e pre rest chain

snoc-cons :
    (xs : List Address) (a : Address)
    → (c : Address) × (cs : List Address) × (xs ++ a ∷ [] ≡ c ∷ cs)
snoc-cons [] a = (a, [], refl)
snoc-cons (x ∷ xs) a = (x, xs ++ a ∷ [], refl)

module _ (create_element : ℕ → Option Bytes → Heap → Address × Heap)
    (creator : IsCreator create_element) where
  concat_loop-end :
      (fuel : ℕ) (head : Address) (dst : Array) (heap : Heap)
      → concat_loop create_element fuel head (some head) dst heap ≡ done (dst, heap)
  unfolding concat_loop
  concat_loop-end zero head dst heap = rw (==_refl head) refl
  concat_loop-end (suc fuel) head dst heap = rw (==_refl head) refl

  concat_loop-step :
      (fuel : ℕ) (src_head ae : Address) (dst : Array) (heap : Heap)
      → src_head ≢ ae
      → let pushed = bash_array_push create_element dst (heap.element ae).value heap in
        concat_loop create_element (suc fuel) src_head (some ae) dst heap
        ≡ concat_loop create_element fuel src_head (pushed.1.element ae).next pushed.0 pushed.1
  unfolding concat_loop
  concat_loop-step fuel src_head ae dst heap h = rw (==_apart ae src_head λ same. h (sym same)) refl

  -- What a loop over the source's rest has done.
  pub record IsAppended (heap : Heap) (xs ys : List Address) (result : Outcome (Array × Heap))
      : Type 0 where
    pub news : List Address
    pub array : Array
    pub after : Heap
    pub same : result ≡ done (array, after)
    pub holds : IsArray after array (xs ++ news)
    pub appended : values after (xs ++ news) ≡ values heap xs ++ values heap ys

  nothing-IsAppended :
      (xs : List Address) (dst : Array) (heap : Heap)
      → IsArray heap dst xs
      → IsAppended heap xs [] (done (dst, heap))
  unfolding values
  nothing-IsAppended xs dst heap holds = record {
    news = [];
    array = dst;
    after = heap;
    same = refl;
    holds = subst (IsArray heap dst) (sym (append-nil xs)) holds;
    appended = ap (values heap) (append-nil xs) ∙ sym (append-nil (values heap xs));
  }

  -- One element is pushed, and then the rest.
  pushed-IsAppended :
      (y : Address) (ys xs : List Address) (dst : Array) (heap : Heap)
      (result : Outcome (Array × Heap)) (holds : IsArray heap dst xs)
      → let value = (heap.element y).value in
        let pushed = bash_array_push create_element dst value heap in
        Below heap.bound ys
        → IsAppended pushed.1
            (xs ++ new_address create_element creator dst value heap ∷ [])
            ys
            result
        → IsAppended heap xs (y ∷ ys) result
  unfolding values
  pushed-IsAppended y ys xs dst heap result holds below rest =
      let value = (heap.element y).value in
      let pushed = bash_array_push create_element dst value heap in
      let new = new_address create_element creator dst value heap in
      let push = push-IsPushed create_element creator dst value heap xs holds in
      let regroup = append_assoc xs (new ∷ []) rest.news in
      record {
        news = new ∷ rest.news;
        array = rest.array;
        after = rest.after;
        same = rest.same;
        holds = subst (IsArray rest.after rest.array) regroup rest.holds;
        appended =
            ap (values rest.after) (sym regroup)
            ∙ rest.appended
            ∙ ap (λ vs. vs ++ values pushed.1 ys)
                (values-push create_element creator dst value heap xs holds)
            ∙ ap (λ vs. (values heap xs ++ value ∷ []) ++ vs)
                (values-kept heap pushed.1 (last_from dst.head xs) new dst.head ys value push below)
            ∙ append_assoc (values heap xs) (value ∷ []) (values heap ys);
      }

  concat_loop-appends :
      (ys xs : List Address) (fuel src_head a : Address) (dst : Array) (heap : Heap)
      → IsArray heap dst xs
      → Chain heap a ys src_head
      → Below heap.bound (a ∷ ys)
      → Apart src_head ys
      → Separate (dst.head ∷ xs) ys
      → length ys ≤ fuel
      → IsAppended heap xs ys
          (concat_loop create_element fuel src_head (heap.element a).next dst heap)
  unfolding bash_array_push
  concat_loop-appends [] xs fuel src_head a dst heap holds chain below apart separate enough =
      subst (IsAppended heap xs [])
        (sym (
          ap (λ p. concat_loop create_element fuel src_head p dst heap) chain
          ∙ concat_loop-end fuel src_head dst heap))
        (nothing-IsAppended xs dst heap holds)
  concat_loop-appends (y ∷ ys) xs zero src_head a dst heap holds chain below apart separate enough =
      absurd (omega (arith, enough))
  concat_loop-appends (y ∷ ys) xs (suc fuel) src_head a dst heap holds (leads, chain) below apart
        separate enough =
      let value = (heap.element y).value in
      let (pushed, after) = bash_array_push create_element dst value heap in
      let new = new_address create_element creator dst value heap in
      let push = push-IsPushed create_element creator dst value heap xs holds in
      let rest =
        concat_loop-appends ys (xs ++ new ∷ []) fuel src_head y pushed after
          (push-IsArray create_element creator dst value heap xs holds)
          (Chain-kept heap after y (last_from dst.head xs) new dst.head src_head ys value push chain
            below.1 (Separate-last dst.head xs (y ∷ ys) separate))
          (Below-mono heap.bound after.bound (y ∷ ys) (omega (arith, push.new_high, push.new_used))
            below.1)
          apart.1
          (Separate-snoc new (dst.head ∷ xs) ys
            (Apart-Below heap.bound new ys push.new_high below.1.1)
            (Separate-rest (dst.head ∷ xs) ys y separate))
          (omega (arith, enough)) in
      subst (IsAppended heap xs (y ∷ ys))
        (sym (
          ap (λ p. concat_loop create_element (suc fuel) src_head p dst heap) leads
          ∙ concat_loop-step fuel src_head y dst heap apart.0))
        (pushed-IsAppended y ys xs dst heap _ holds below.1.1 rest)

  -- From an element of the array that is appended to itself.
  concat_loop_self :
      (fuel : ℕ) (pre rest : List Address) (b : Address) (array : Array) (heap : Heap)
      → IsArray heap array (pre ++ b ∷ rest)
      → concat_loop create_element fuel array.head (some b) array heap ≡ spin
  unfolding concat_loop bash_array_push
  concat_loop_self zero pre rest b array heap holds =
      rw
        (==_apart b array.head
          λ same. Apart-middle array.head b pre rest holds.ring.distinct.0 (sym same))
        refl
  concat_loop_self (suc fuel) pre rest b array heap holds =
      let value = (heap.element b).value in
      let (pushed, after) = bash_array_push create_element array value heap in
      let new = new_address create_element creator array value heap in
      let (c, cs, split) = snoc-cons rest new in
      let longer : IsArray after pushed (pre ++ b ∷ c ∷ cs) =
        subst (IsArray after pushed)
          (append_assoc pre (b ∷ rest) (new ∷ []) ∙ ap (λ zs. pre ++ b ∷ zs) split)
          (push-IsArray create_element creator array value heap (pre ++ b ∷ rest) holds) in
      let shifted : IsArray after pushed ((pre ++ b ∷ []) ++ c ∷ cs) =
        subst (IsArray after pushed) (sym (append_assoc pre (b ∷ []) (c ∷ cs))) longer in
      concat_loop-step fuel array.head b array heap
        (Apart-middle array.head b pre rest holds.ring.distinct.0)
      ∙ ap (λ p. concat_loop create_element fuel array.head p pushed after)
          (Chain-middle after array.head b c array.head pre cs longer.ring.chain)
      ∙ concat_loop_self fuel (pre ++ b ∷ []) cs c pushed after shifted

  -- The names of two different arrays whose elements stand apart: the builtin succeeds, and the
  -- destination's values are those from before with the source's behind them. Its fields still
  -- agree with its ring.
  pub ab_concatarray-appends :
      (dst src : Bytes) (dst_a src_a : Array) (xs ys : List Address) (rest : WordList)
      (store : Store)
      → store.find_array dst ≡ some dst_a
      → store.find_array src ≡ some src_a
      → IsArray store.heap dst_a xs
      → IsRing store.heap src_a.head ys
      → Separate (dst_a.head ∷ xs) ys
      → (fuel : ℕ) → length ys ≤ fuel
      → (news : List Address) × (array : Array) × (after : Heap) × (ab_concatarray create_element
            fuel
            (some dst ∷ some src ∷ rest)
            store
          ≡ done (update dst array after store, 0))
        × IsArray after array (xs ++ news)
        × (values after (xs ++ news) ≡ values store.heap xs ++ values store.heap ys)
  unfolding ab_concatarray concatarray
  ab_concatarray-appends dst src dst_a src_a xs ys rest store has_dst has_src holds ring apart fuel
        enough =
      let loop =
        concat_loop-appends ys xs fuel src_a.head src_a.head dst_a store.heap holds ring.chain
          ring.below ring.distinct.0 apart enough in
      (
        loop.news,
        loop.array,
        loop.after,
        rw (ab_concatarray, has_dst, has_src, loop.same) refl,
        loop.holds,
        loop.appended,
      )

  -- An array with an element that is appended to itself: the loop never comes to the head, however
  -- many rounds it has.
  pub ab_concatarray_self :
      (name : Bytes) (array : Array) (x : Address) (xs : List Address) (rest : WordList)
      (store : Store)
      → store.find_array name ≡ some array
      → IsArray store.heap array (x ∷ xs)
      → (fuel : ℕ) → ab_concatarray create_element fuel (some name ∷ some name ∷ rest) store ≡ spin
  unfolding ab_concatarray concatarray
  ab_concatarray_self name array x xs rest store has holds fuel =
      let loop : concatarray create_element fuel array array store.heap ≡ spin =
        ap (λ p. concat_loop create_element fuel array.head p array store.heap) holds.ring.chain.0
        ∙ concat_loop_self fuel [] xs x array store.heap holds in
      rw (ab_concatarray, has, has, loop) refl
