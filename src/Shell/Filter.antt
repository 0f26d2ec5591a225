-- ===== src/Shell/Filter.antt =====
-- `ab_filter_args` of native/abnativefunctions.cpp, which takes elements out of the linked list of an
-- array of bash.
pub mod Freed
mod Tests
use autobuild.Base.{
  ℕ, zero, suc, ◌-◌, Bool, true, false, ◌==◌, List, [], ◌∷◌, if◌then◌else◌, Option, none, some,
  Bytes, contains,
}
use autobuild.Shell.Words.{WordList, get_all_args_vector}
use autobuild.Shell.Array.{Address, Element, Heap, Array, Store, update, set_next, set_prev}

-- The elements in memory, and which addresses were given back.
pub record Memory : Type 0 where
  pub heap : Heap
  pub freed : Address → Bool

-- Memory of which nothing was given back.
abbrev pub fresh : Heap → Memory
fresh heap = record { heap = heap; freed = λ a. false }

-- What code on such memory comes to: an end, the use of a null pointer, the use of memory that was
-- given back, or a loop that used up its fuel.
pub data Result {ℓ} (A : Type ℓ) : Type ℓ where
  finished : A → Result A
  null_used freed_used runs_on : Result A

abbrev pub and_then {ℓ κ} : {A : Type ℓ} {B : Type κ} → Result A → (A → Result B) → Result B
and_then (finished a) f = f a
and_then null_used f = null_used
and_then freed_used f = freed_used
and_then runs_on f = runs_on

abbrev or_null {ℓ} : {A : Type ℓ} → Option A → Result A
or_null none = null_used
or_null (some a) = finished a

unfoldable pub read : Memory → Address → Result Element
read memory a = if memory.freed a then freed_used else finished (memory.heap.element a)

unfoldable pub write_next : Memory → Option Address → Option Address → Result Memory
write_next memory none next = null_used
write_next memory (some a) next =
    if memory.freed a
    then freed_used
    else finished (record memory { heap = set_next a next memory.heap })

unfoldable pub write_prev : Memory → Option Address → Option Address → Result Memory
write_prev memory none prev = null_used
write_prev memory (some a) prev =
    if memory.freed a
    then freed_used
    else finished (record memory { heap = set_prev a prev memory.heap })

abbrev points_to : Option Address → Address → Bool
points_to none a = false
points_to (some b) a = b == a

-- The count of an array that has this element is not 0, where the subtraction would stop.
abbrev relinked : Array → Element → Array
relinked array ae = record array {
  lastref =
      if points_to ae.next array.head
      then if points_to ae.prev array.head then none else ae.prev
      else ae.next;
  num_elements = array.num_elements - 1;
}

-- `array_dispose_element` of bash gives the element's memory back.
abbrev dispose : Address → Memory → Memory
dispose a memory = record memory { freed = λ b. if b == a then true else memory.freed b }

-- The element is taken out of the list. It is read again after each change.
unfoldable pub unlink : Memory → Array → Address → Result (Memory × Array)
unlink memory array a = and_then (read memory a) λ ae.
    and_then (write_next memory ae.prev ae.next) λ next_written.
      and_then (read next_written a) λ ae.
        and_then (write_prev next_written ae.next ae.prev) λ prev_written.
          and_then (read prev_written a) λ ae. finished (dispose a prev_written, relinked array ae)

-- The body of the loop at one element.
unfoldable pub filter_element : List Bytes → Memory → Array → Address → Result (Memory × Array)
filter_element to_remove memory array a = and_then (read memory a) λ ae.
    and_then (or_null ae.value)
      λ value. if contains to_remove value then unlink memory array a else finished (memory, array)

-- The loop, at the element given.
unfoldable pub filter_loop :
    ℕ → List Bytes → Memory → Array → Option Address → Result (Memory × Array)
filter_loop fuel to_remove memory array none = null_used
filter_loop zero to_remove memory array (some a) =
    if a == array.head then finished (memory, array) else runs_on
filter_loop (suc fuel) to_remove memory array (some a) =
    let rest = and_then (filter_element to_remove memory array a) λ (filtered, changed).
      and_then (read filtered a) λ ae. filter_loop fuel to_remove filtered changed ae.next in
    if a == array.head then finished (memory, array) else rest

unfoldable pub ab_filter_args : ℕ → WordList → Store → Result (Store × ℕ)
ab_filter_args fuel [] store = finished (store, 1)
ab_filter_args fuel (none ∷ list) store = finished (store, 1)
ab_filter_args fuel (some name ∷ list) store = elim (store.find_array name) [
  | none ↦ finished (store, 1)
  | some array ↦
      and_then
        (filter_loop fuel (get_all_args_vector list) (fresh store.heap) array
          (store.heap.element array.head).next)
        λ (filtered, changed). finished (update name changed filtered.heap store, 0)
]
