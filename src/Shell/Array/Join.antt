-- ===== src/Shell/Array/Join.antt =====
-- What `ab_join_elements` of native/abnativefunctions.cpp prints.
use autobuild.Base.{
  ℕ, zero, suc, ◌≤◌, List, [], ◌∷◌, ◌++◌, some, Bytes, done, ◌≡◌, refl, ap, sym, ◌∙◌, arith, length,
  append-nil,
}
use autobuild.Shell.Words.{WordList}
use autobuild.Shell.Array.{Address, Heap, Array, Store, join_loop, ab_join_elements}
use autobuild.Shell.Array.Ring.{Chain, Apart, IsRing}
use autobuild.Shell.Array.Link.{==_apart, ==_refl}

-- The texts with a separator between any two.
unfoldable pub intercalate : Bytes → List Bytes → Bytes
intercalate sep [] = []
intercalate sep (s ∷ []) = s
intercalate sep (s ∷ t ∷ texts) = s ++ (sep ++ intercalate sep (t ∷ texts))

-- Every element has a text.
abbrev pub Holds : Heap → List Address → List Bytes → Type 0
Holds heap [] [] = Unit
Holds heap [] (t ∷ texts) = ⊥
Holds heap (x ∷ xs) [] = ⊥
Holds heap (x ∷ xs) (t ∷ texts) = ((heap.element x).value ≡ some t) × Holds heap xs texts

join_loop-intercalate :
    (xs : List Address) (texts : List Bytes) (fuel head a : Address) (sep : Bytes) (heap : Heap)
    → Chain heap a xs head
    → Apart head xs
    → Holds heap xs texts
    → length xs ≤ fuel
    → join_loop fuel head (heap.element a).next sep heap ≡ done (intercalate sep texts)
unfolding join_loop intercalate
join_loop-intercalate [] [] zero head a sep heap chain apart holds enough =
    ap (λ p. join_loop zero head p sep heap) chain ∙ rw (==_refl head) refl
join_loop-intercalate [] [] (suc fuel) head a sep heap chain apart holds enough =
    ap (λ p. join_loop (suc fuel) head p sep heap) chain ∙ rw (==_refl head) refl
join_loop-intercalate [] (t ∷ texts) fuel head a sep heap chain apart holds enough = absurd holds
join_loop-intercalate (x ∷ xs) [] fuel head a sep heap chain apart holds enough = absurd holds
join_loop-intercalate (x ∷ xs) (t ∷ texts) zero head a sep heap chain apart holds enough =
    absurd (omega (arith, enough))
join_loop-intercalate (x ∷ []) (t ∷ []) (suc fuel) head a sep heap chain apart holds enough =
    let rest =
      join_loop-intercalate [] [] fuel head x sep heap chain.1 tt tt (omega (arith, enough)) in
    ap (λ p. join_loop (suc fuel) head p sep heap) chain.0
    ∙ rw (==_apart x head (λ same. apart.0 (sym same)), holds.0, rest, chain.1, ==_refl head)
        (ap done (append-nil t))
join_loop-intercalate (x ∷ y ∷ xs) (t ∷ u ∷ texts) (suc fuel) head a sep heap chain apart holds
      enough =
    let rest =
      join_loop-intercalate (y ∷ xs) (u ∷ texts) fuel head x sep heap chain.1 apart.1 holds.1
        (omega (arith, enough)) in
    ap (λ p. join_loop (suc fuel) head p sep heap) chain.0
    ∙ rw
        (
          ==_apart x head (λ same. apart.0 (sym same)),
          holds.0,
          rest,
          chain.1.0,
          ==_apart head y apart.1.0,
        )
        refl
join_loop-intercalate (x ∷ []) (t ∷ u ∷ texts) (suc fuel) head a sep heap chain apart holds enough =
    absurd holds.1
join_loop-intercalate (x ∷ y ∷ xs) (t ∷ []) (suc fuel) head a sep heap chain apart holds enough =
    absurd holds.1

-- With a round for each element, the builtin prints the texts of the array with the separator
-- between them, and succeeds.
pub ab_join_elements-intercalate :
    (ex_badusage fuel : ℕ) (name sep : Bytes) (rest : WordList) (store : Store) (array : Array)
    (xs : List Address) (texts : List Bytes)
    → store.find_array name ≡ some array
    → IsRing store.heap array.head xs
    → Holds store.heap xs texts
    → length xs ≤ fuel
    → ab_join_elements ex_badusage fuel (some name ∷ some sep ∷ rest) store
      ≡ done (intercalate sep texts, 0)
unfolding ab_join_elements
ab_join_elements-intercalate ex_badusage fuel name sep rest store array xs texts has ring holds
      enough =
    let loop =
      join_loop-intercalate xs texts fuel array.head array.head sep store.heap ring.chain
        ring.distinct.0 holds enough in
    rw (ab_join_elements, has, loop) refl
