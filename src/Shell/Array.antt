-- ===== src/Shell/Array.antt =====
-- The builtins of native/abnativefunctions.cpp that work on the linked list of an array of bash:
-- `bash_array_push`, `ab_concatarray`, `abmm_array_mine`, `abmm_array_mine_remove`,
-- and `ab_join_elements`.
pub mod Ring
pub mod Link
pub mod Push
pub mod Concat
pub mod Mine
pub mod Join
pub mod Tests
use autobuild.Base.{
  ℕ, zero, suc, ◌+◌, ◌-◌, Bool, true, false, ◌==◌, ltb, List, [], ◌∷◌, ◌++◌, if◌then◌else◌, Option,
  none, some, Bytes, codes, Outcome, done, fault, spin, then_do, or_fault, contains, equal,
}
use autobuild.Shell.Words.{WordList}

-- Addresses; a pointer that may be null is an `Option` of one.
abbrev pub Address : Type 0
Address = ℕ

-- `ARRAY_ELEMENT`.
pub record Element : Type 0 where
  pub ind : ℕ
  pub value : Option Bytes
  pub next : Option Address
  pub prev : Option Address

-- The elements in memory; the addresses below `bound` are or were in use.
pub record Heap : Type 0 where
  pub element : Address → Element
  pub bound : Address

-- `ARRAY`: the elements stand in a ring with the head.
pub record Array : Type 0 where
  pub head : Address
  pub lastref : Option Address
  pub num_elements : ℕ

-- The arrays that have a name, and the memory.
pub record Store : Type 0 where
  pub find_array : Bytes → Option Array
  pub heap : Heap

abbrev pub update : Bytes → Array → Heap → Store → Store
update name array heap store = record {
  find_array = λ other. if equal name other then some array else store.find_array other;
  heap = heap;
}

abbrev pub set_next : Address → Option Address → Heap → Heap
set_next a next heap = record heap {
  element = λ b. if b == a then record (heap.element b) { next = next } else heap.element b;
}

abbrev pub set_prev : Address → Option Address → Heap → Heap
set_prev a prev heap = record heap {
  element = λ b. if b == a then record (heap.element b) { prev = prev } else heap.element b;
}

-- `create_element` is bash's `array_create_element`.
module _ (create_element : ℕ → Option Bytes → Heap → Address × Heap) where
  unfoldable pub bash_array_push : Array → Option Bytes → Heap → Array × Heap
  bash_array_push array value heap =
      let (new_ae, created) = create_element array.num_elements value heap in
      let linked = set_prev new_ae array.lastref created in
      (
        record array { lastref = some new_ae; num_elements = array.num_elements + 1 },
        elim array.lastref [
          | some last ↦
              set_next last (some new_ae) (set_next new_ae (linked.element last).next linked)
          | none ↦ set_next new_ae (some array.head) (set_next array.head (some new_ae) linked)
        ],
      )

  -- The loop of `ab_concatarray`, at the element `ae` of the source whose head is given. A null
  -- pointer in the source's ring is a fault.
  unfoldable pub concat_loop : ℕ → Address → Option Address → Array → Heap → Outcome (Array × Heap)
  concat_loop fuel src_head none dst heap = fault
  concat_loop zero src_head (some ae) dst heap = if ae == src_head then done (dst, heap) else spin
  concat_loop (suc fuel) src_head (some ae) dst heap =
      let (pushed, next_heap) = bash_array_push dst (heap.element ae).value heap in
      let rest = concat_loop fuel src_head (next_heap.element ae).next pushed next_heap in
      if ae == src_head then done (dst, heap) else rest

  unfoldable pub concatarray : ℕ → Array → Array → Heap → Outcome (Array × Heap)
  concatarray fuel dst src heap = concat_loop fuel src.head (heap.element src.head).next dst heap

  -- The names' arrays are looked up, and what is not an array has none; the destination's is
  -- changed in place.
  unfoldable pub ab_concatarray : ℕ → WordList → Store → Outcome (Store × ℕ)
  ab_concatarray fuel (some dst ∷ some src ∷ list) store = elim (store.find_array dst) [
    | none ↦ done (store, 1)
    | some dst_a ↦ elim (store.find_array src) [
      | none ↦ done (store, 1)
      | some src_a ↦
          then_do (concatarray fuel dst_a src_a store.heap)
            λ (pushed, heap). done (update dst pushed heap store, 0)
    ]
  ]
  ab_concatarray fuel (some dst ∷ none ∷ list) store = done (store, 1)
  ab_concatarray fuel (some dst ∷ []) store = done (store, 1)
  ab_concatarray fuel (none ∷ list) store = done (store, 1)
  ab_concatarray fuel [] store = done (store, 1)

  -- The Boolean tells whether there is an element, without which the builtin fails.
  unfoldable pub abmm_array_mine : Array → Heap → Array × Heap × Bool
  abmm_array_mine array heap =
      if ltb array.num_elements 1
      then (array, heap, false)
      else let (trip_mine, created) =
          create_element 0 (some (codes "---PLEASE_MIGRATE_TO_ARRAY---")) heap in
        (
          record array { lastref = some trip_mine },
          set_next trip_mine (some array.head) created,
          true,
        )

-- The mine is taken from `lastref`, and a null pointer there is a fault; bash frees its memory,
-- which is not used any more.
unfoldable pub abmm_array_mine_remove : Array → Heap → Outcome (Array × Heap × Bool)
abmm_array_mine_remove array heap =
    if ltb array.num_elements 1 then done (array, heap, false) else elim array.lastref [
      | none ↦ fault
      | some trip_mine ↦ done (
        record array { lastref = (heap.element trip_mine).next },
        set_next trip_mine none heap,
        true,
      )
    ]

-- The loop of `ab_join_elements`, at the element `ae`: what it prints. A null pointer is a fault.
unfoldable pub join_loop : ℕ → Address → Option Address → Bytes → Heap → Outcome Bytes
join_loop fuel head none sep heap = fault
join_loop zero head (some ae) sep heap = if ae == head then done [] else spin
join_loop (suc fuel) head (some ae) sep heap =
    let rest = join_loop fuel head (heap.element ae).next sep heap in
    if ae == head
    then done []
    else then_do (or_fault (heap.element ae).value) λ value.
      then_do (or_fault (heap.element ae).next) λ next.
        then_do rest
          λ printed. done (if head == next then value ++ printed else value ++ (sep ++ printed))

unfoldable pub ab_join_elements : ℕ → ℕ → WordList → Store → Outcome (Bytes × ℕ)
ab_join_elements ex_badusage fuel (some array_name ∷ some sep ∷ list) store =
    elim (store.find_array array_name) [
      | none ↦ done ([], ex_badusage)
      | some array ↦
          then_do (join_loop fuel array.head (store.heap.element array.head).next sep store.heap)
            λ printed. done (printed, 0)
    ]
ab_join_elements ex_badusage fuel (some array_name ∷ none ∷ list) store = done ([], ex_badusage)
ab_join_elements ex_badusage fuel (some array_name ∷ []) store = done ([], ex_badusage)
ab_join_elements ex_badusage fuel (none ∷ list) store = done ([], ex_badusage)
ab_join_elements ex_badusage fuel [] store = done ([], ex_badusage)
