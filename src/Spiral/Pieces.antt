-- ===== src/Spiral/Pieces.antt =====
-- The loop that cuts a list of package names ends, and cuts at every comma.
use autobuild.Base.{
  ℕ, zero, suc, ◌+◌, ◌<◌, true, false, List, [], ◌∷◌, ◌++◌, ◌≡◌, refl, ◌⊎◌, inl, inr, arith, ◌==◌,
  ltb, if◌then◌else◌, Bool-cases, none, some, Bytes, length, take, drop, find_char, emplace,
  insert_all, drop-drop, length-drop, append-nil, append_assoc,
}
use autobuild.Spiral.{split_loop}

-- The pieces between commas; nothing is made of an empty piece at the end.
unfoldable pub pieces_onto : Bytes → Bytes → List Bytes
pieces_onto piece [] = if ltb 0 (length piece) then piece ∷ [] else []
pieces_onto piece (c ∷ cs) = elim (c == b',') [
  | true ↦ piece ∷ pieces_onto [] cs
  | false ↦ pieces_onto (piece ++ c ∷ []) cs
]

abbrev pub pieces : Bytes → List Bytes
pieces = pieces_onto []

-- What the text is, by the place of its first comma.
find_char_cases :
    (piece s : Bytes)
    → ((find_char b',' s ≡ none)
        × (pieces_onto piece s ≡ (if ltb 0 (length (piece ++ s)) then (piece ++ s) ∷ [] else [])))
      ⊎ ((i : ℕ) × (find_char b',' s ≡ some i)
          × (i < length s)
          × (pieces_onto piece s ≡ (piece ++ take i s) ∷ pieces (drop (suc i) s)))
unfolding find_char pieces_onto
find_char_cases piece [] = inl (refl, rw append-nil)
find_char_cases piece (c ∷ cs) = elim (Bool-cases (c == b',')) [
  | inl e ↦ inr (0, ground arith, omega arith, ground (arith, append-nil piece))
  | inr e ↦ elim (find_char_cases (piece ++ c ∷ []) cs) [
    | inl (h, k) ↦ inl (ground arith, ground (arith, append_assoc piece (c ∷ []) cs))
    | inr (i, h, l, k) ↦
        inr (
          suc i,
          ground arith,
          omega arith,
          ground (arith, append_assoc piece (c ∷ []) (take i cs)),
        )
  ]
]

-- With more rounds than characters left, the loop adds the pieces of what is left.
split_loop-pieces :
    (f : ℕ) (s : Bytes) (pos : ℕ) (names : List Bytes)
    → length (drop pos s) < f
    → split_loop f s pos pos names ≡ some (insert_all (pieces (drop pos s)) names)
unfolding split_loop insert_all
split_loop-pieces zero s pos names h = absurd (omega arith)
split_loop-pieces (suc f) s pos names h = elim (find_char_cases [] (drop pos s)) [
  | inl (none_left, e) ↦ ground (arith, length-drop pos s)
  | inr (i, here, below, e) ↦ ground (
    arith,
    split_loop-pieces f s (pos + i + 1) (emplace (take i (drop pos s)) names),
    drop-drop (suc i) pos s,
    length-drop (suc i) (drop pos s),
  )
]

-- The rounds that `insert_from_lut` has are enough.
pub split_loop_total :
    (s : Bytes) → split_loop (length s + 1) s 0 0 [] ≡ some (insert_all (pieces s) [])
split_loop_total s = split_loop-pieces (length s + 1) s 0 [] (omega arith)
