-- ===== src/Shell/Listing/Lines.antt =====
-- The array that `ab_read_listing_file` of native/abnativefunctions.cpp leaves.
use autobuild.Base.{
  ℕ, Bool, true, false, not, ◌==◌, List, [], ◌∷◌, ◌++◌, map, keep, all, Option, some, Bytes, done,
  ◌≡◌, refl, ap, sym, ◌∙◌, arith, append-nil, append_assoc,
}
use autobuild.Shell.Words.{WordList}
use autobuild.Shell.Array.{Address, Heap, Array, Store, update, bash_array_push}
use autobuild.Shell.Array.Ring.{IsArray, IsCreator, values}
use autobuild.Shell.Array.Link.{new_address}
use autobuild.Shell.Array.Push.{push-IsArray, values-push}
use autobuild.Shell.Listing.{keep_lines, push_all, ab_read_listing_file}

-- A line that is not empty, and one that is no comment.
abbrev pub is_line : Bytes → Bool
is_line [] = false
is_line (c ∷ cs) = true

abbrev pub is_entry : Bytes → Bool
is_entry [] = false
is_entry (c ∷ cs) = not (c == b'#')

keep_lines-keep :
    (lines : List Bytes) → all is_line lines ≡ true → keep_lines lines ≡ some (keep is_entry lines)
unfolding keep_lines
keep_lines-keep [] h = refl
keep_lines-keep ([] ∷ lines) h = cc
keep_lines-keep ((c ∷ cs) ∷ lines) h = rw (keep_lines, keep_lines-keep lines h) (ground arith)

module _ (create_element : ℕ → Option Bytes → Heap → Address × Heap)
    (creator : IsCreator create_element) where
  -- The array that is filled, and its ring.
  pub record IsFilled (old : List (Option Bytes)) (lines : List Bytes) (result : Array × Heap)
      : Type 0 where
    pub ring : List Address
    pub holds : IsArray result.1 result.0 ring
    pub filled : values result.1 ring ≡ old ++ map some lines

  pub push_all-IsFilled :
      (lines : List Bytes) (array : Array) (heap : Heap) (xs : List Address)
      → IsArray heap array xs
      → IsFilled (values heap xs) lines (push_all create_element lines array heap)
  unfolding push_all
  push_all-IsFilled [] array heap xs holds = record {
    ring = xs;
    holds = holds;
    filled = sym (append-nil (values heap xs));
  }
  push_all-IsFilled (line ∷ lines) array heap xs holds =
      let new = new_address create_element creator array (some line) heap in
      let (pushed, next) = bash_array_push create_element array (some line) heap in
      let rest =
        push_all-IsFilled lines pushed next (xs ++ new ∷ [])
          (push-IsArray create_element creator array (some line) heap xs holds) in
      record {
        ring = rest.ring;
        holds = rest.holds;
        filled =
            rest.filled
            ∙ ap (λ old. old ++ map some lines)
                (values-push create_element creator array (some line) heap xs holds)
            ∙ append_assoc (values heap xs) (some line ∷ []) (map some lines);
      }

  -- For a file without empty lines the builtin succeeds, and the array of the name given has the
  -- lines that are no comments, in order.
  pub ab_read_listing_file-entries :
      (read : Bytes → Option (List Bytes)) (make_array : Heap → Array × Heap)
      (filename name : Bytes) (rest : WordList) (lines : List Bytes) (store : Store)
      → read filename ≡ some lines
      → IsArray (make_array store.heap).1 (make_array store.heap).0 []
      → all is_line lines ≡ true
      → (array : Array) × (after : Heap) × (xs : List Address) × (ab_read_listing_file
            create_element read make_array
            (some filename ∷ some name ∷ rest)
            store
          ≡ done (update name array after store, 0))
        × IsArray after array xs
        × (values after xs ≡ map some (keep is_entry lines))
  unfolding ab_read_listing_file values
  ab_read_listing_file-entries read make_array filename name rest lines store has empty h =
      let (array, made) = make_array store.heap in
      let filled = push_all-IsFilled (keep is_entry lines) array made [] empty in
      let (result, after) = push_all create_element (keep is_entry lines) array made in
      (
        result,
        after,
        filled.ring,
        rw (ab_read_listing_file, has, keep_lines-keep lines h) refl,
        filled.holds,
        filled.filled,
      )
