-- ===== src/Shell/Array/Ring.antt =====
-- The ring of an array, and what keeps it, for the list operations of
-- native/abnativefunctions.cpp.
use autobuild.Base.{
  ℕ, ◌<◌, ◌≤◌, List, [], ◌∷◌, ◌++◌, Option, none, some, Bytes, ◌≡◌, ◌≢◌, refl, sym, arith, length,
}
use autobuild.Shell.Array.{Address, Heap, Array}

-- From `a` over the addresses given, in order, to `b`.
abbrev pub Chain : Heap → Address → List Address → Address → Type 0
Chain heap a [] b = (heap.element a).next ≡ some b
Chain heap a (x ∷ xs) b = ((heap.element a).next ≡ some x) × Chain heap x xs b

-- The addresses differ from each other.
-- The address differs from all of the list.
abbrev pub Apart : Address → List Address → Type 0
Apart a [] = Unit
Apart a (x ∷ xs) = (a ≢ x) × Apart a xs

abbrev pub Distinct : List Address → Type 0
Distinct [] = Unit
Distinct (x ∷ xs) = Apart x xs × Distinct xs

abbrev pub Below : Address → List Address → Type 0
Below bound [] = Unit
Below bound (x ∷ xs) = (x < bound) × Below bound xs

-- The last of the addresses, and the one given if there is none.
abbrev pub last_from : Address → List Address → Address
last_from a [] = a
last_from a (x ∷ xs) = last_from x xs

abbrev pub last_of : List Address → Option Address
last_of [] = none
last_of (x ∷ xs) = some (last_from x xs)

-- The ring of the head and the elements at the addresses given.
pub record IsRing (heap : Heap) (head : Address) (xs : List Address) : Type 0 where
  pub chain : Chain heap head xs head
  pub distinct : Distinct (head ∷ xs)
  pub below : Below heap.bound (head ∷ xs)

-- An array whose fields agree with its ring.
pub record IsArray (heap : Heap) (array : Array) (xs : List Address) : Type 0 where
  pub ring : IsRing heap array.head xs
  pub last : array.lastref ≡ last_of xs
  pub count : array.num_elements ≡ length xs

unfoldable pub values : Heap → List Address → List (Option Bytes)
values heap [] = []
values heap (x ∷ xs) = (heap.element x).value ∷ values heap xs

-- What the code relies on in `array_create_element`: the element has no neighbours, its address
-- is not in use, and the other elements stay as they are.
pub record IsCreator (create_element : ℕ → Option Bytes → Heap → Address × Heap) : Type 0 where
  pub new_element :
      (ind : ℕ) (value : Option Bytes) (heap : Heap)
      → (create_element ind value heap).1.element (create_element ind value heap).0
        ≡ record { ind = ind; value = value; next = none; prev = none }
  pub old_element :
      (ind : ℕ) (value : Option Bytes) (heap : Heap) (a : Address)
      → a < heap.bound
      → (create_element ind value heap).1.element a ≡ heap.element a
  pub unused :
      (ind : ℕ) (value : Option Bytes) (heap : Heap)
      → heap.bound ≤ (create_element ind value heap).0
  pub in_use :
      (ind : ℕ) (value : Option Bytes) (heap : Heap)
      → (create_element ind value heap).0 < (create_element ind value heap).1.bound

pub Below-mono :
    (bound more : Address) (xs : List Address) → bound ≤ more → Below bound xs → Below more xs
Below-mono bound more [] h below = tt
Below-mono bound more (x ∷ xs) h (first, rest) =
    (omega (arith, first, h), Below-mono bound more xs h rest)

pub Apart-Below : (bound a : Address) (xs : List Address) → bound ≤ a → Below bound xs → Apart a xs
Apart-Below bound a [] h below = tt
Apart-Below bound a (x ∷ xs) h (first, rest) =
    ((λ same. omega (arith, first, h, same)), Apart-Below bound a xs h rest)

pub last_from-Below :
    (bound a : Address) (xs : List Address) → Below bound (a ∷ xs) → last_from a xs < bound
last_from-Below bound a [] (first, rest) = first
last_from-Below bound a (x ∷ xs) (first, rest) = last_from-Below bound x xs rest

pub Apart-last_from : (a x : Address) (xs : List Address) → Apart a (x ∷ xs) → a ≢ last_from x xs
Apart-last_from a x [] (first, rest) = first
Apart-last_from a x (y ∷ xs) (first, rest) = Apart-last_from a y xs rest

pub Chain-last :
    (heap : Heap) (a : Address) (xs : List Address) (b : Address)
    → Chain heap a xs b
    → (heap.element (last_from a xs)).next ≡ some b
Chain-last heap a [] b chain = chain
Chain-last heap a (x ∷ xs) b (first, rest) = Chain-last heap x xs b rest

pub Apart-snoc :
    (a new : Address) (xs : List Address) → a ≢ new → Apart a xs → Apart a (xs ++ new ∷ [])
Apart-snoc a new [] h apart = (h, tt)
Apart-snoc a new (x ∷ xs) h (first, rest) = (first, Apart-snoc a new xs h rest)

pub Distinct-snoc :
    (new : Address) (xs : List Address) → Apart new xs → Distinct xs → Distinct (xs ++ new ∷ [])
Distinct-snoc new [] apart distinct = (tt, tt)
Distinct-snoc new (x ∷ xs) (other, apart) (first, rest) =
    (Apart-snoc x new xs (λ same. other (sym same)) first, Distinct-snoc new xs apart rest)

pub Below-snoc :
    (bound new : Address) (xs : List Address)
    → new < bound
    → Below bound xs
    → Below bound (xs ++ new ∷ [])
Below-snoc bound new [] h below = (h, tt)
Below-snoc bound new (x ∷ xs) h (first, rest) = (first, Below-snoc bound new xs h rest)

pub last_of-snoc : (xs : List Address) (new : Address) → last_of (xs ++ new ∷ []) ≡ some new
last_of-snoc [] new = refl
last_of-snoc (x ∷ []) new = refl
last_of-snoc (x ∷ y ∷ xs) new = last_of-snoc (y ∷ xs) new
