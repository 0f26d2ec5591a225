-- ===== src/Spiral/Provides.antt =====
-- Which names the lookup provides.
use autobuild.Base.{
  ℕ, zero, suc, ◌-◌, ◌≤◌, ◌<◌, Bool, true, false, ◌||◌, ◌&&◌, List, [], ◌∷◌, ◌++◌, ◌≡◌, refl, sym,
  ap, ◌∙◌, inl, inr, arith, ◌==◌, Bool-cases, Bytes, codes, length, take, drop, substr, equal,
  equal_iff, take_all, dec_lt, ℕ_discrete, not, or_false, or_comm, contains, emplace, insert_all,
  contains-emplace, or_assoc, length-drop, length-append,
}
use autobuild.Spiral.{provide, provide_all}

-- The code takes no `t64` variant of such a name apart: all but four characters that begin
-- with `t64`.
abbrev pub regular : Bytes → Bool
regular p = not (length p == 4 && equal (take 3 p) (codes "t64"))

-- Whether a name, with the suffix behind it, is `x`, or the first character of one that is not
-- regular is, with the suffix.
unfoldable pub gives : Bytes → Bytes → Bytes → Bool
gives p suffix x = equal (p ++ suffix) x || (not (regular p) && equal (take 1 p ++ suffix) x)

-- Whether one of the names gives `x`.
unfoldable pub names_contain : List Bytes → Bytes → Bytes → Bool
names_contain [] suffix x = false
names_contain (p ∷ ps) suffix x = gives p suffix x || names_contain ps suffix x

length_three : (s : Bytes) → equal s (codes "t64") ≡ true → length s ≡ 3
length_three s h = ap length ((equal_iff s (codes "t64")).0 h)

length-take_min : (n : ℕ) (s : Bytes) → n ≤ length s → length (take n s) ≡ n
length-take_min zero s h = refl
length-take_min (suc n) [] h = absurd (omega arith)
length-take_min (suc n) (x ∷ s) h = ap suc (length-take_min n s (omega arith))

-- The four last characters of a longer name are compared with the three of `t64`.
last_four :
    (p : Bytes)
    → 4 < length p
    → equal (substr p (length p - 4) (length p - 1)) (codes "t64") ≡ false
last_four p h = elim (Bool-cases (equal (substr p (length p - 4) (length p - 1)) (codes "t64"))) [
  | inl e ↦ absurd (
      omega (
        arith,
        length_three _ e,
        ap length (
            take_all (length p - 1) (drop (length p - 4) p)
              (omega (arith, length-drop (length p - 4) p))),
        length-drop (length p - 4) p,
      ))
  | inr e ↦ e
]

provide-regular :
    (p suffix : Bytes) (out : List Bytes)
    → regular p ≡ true
    → provide p suffix out ≡ emplace (p ++ suffix) out
unfolding provide
provide-regular p suffix out h = elim (dec_lt 4 (length p)) [
  | yes l ↦ ground (arith, last_four p l)
  | no l ↦ elim (ℕ_discrete (length p) 4) [
    | yes e ↦ rw (e, provide) (ground (arith, e))
    | no e ↦ ground arith
  ]
]

provide_irregular :
    (p suffix : Bytes) (out : List Bytes)
    → regular p ≡ false
    → provide p suffix out ≡ emplace (take 1 p ++ suffix) (emplace (p ++ suffix) out)
unfolding provide
provide_irregular p suffix out h = ground arith

provide-gives :
    (p suffix : Bytes) (out : List Bytes) (x : Bytes)
    → contains (provide p suffix out) x ≡ (contains out x || gives p suffix x)
unfolding gives
provide-gives p suffix out x = elim (Bool-cases (regular p)) [
  | inl e ↦
      ap (λ s. contains s x) (provide-regular p suffix out e)
      ∙ contains-emplace (p ++ suffix) x out
      ∙ ap (◌||◌ (contains out x)) (
          sym (or_false (equal (p ++ suffix) x))
          ∙ ap (λ r. equal (p ++ suffix) x || (not r && equal (take 1 p ++ suffix) x)) (sym e))
  | inr e ↦
      ap (λ s. contains s x) (provide_irregular p suffix out e)
      ∙ contains-emplace (take 1 p ++ suffix) x (emplace (p ++ suffix) out)
      ∙ ap (λ b. b || equal (take 1 p ++ suffix) x) (contains-emplace (p ++ suffix) x out)
      ∙ sym (or_assoc (contains out x) (equal (p ++ suffix) x) (equal (take 1 p ++ suffix) x))
      ∙ ap
          (λ r.
            contains out x || (equal (p ++ suffix) x || (not r && equal (take 1 p ++ suffix) x)))
          (sym e)
]

longer_ne : (stem suffix : Bytes) → equal ((stem ++ codes "t64") ++ suffix) (stem ++ suffix) ≡ false
longer_ne stem suffix =
    elim (Bool-cases (equal ((stem ++ codes "t64") ++ suffix) (stem ++ suffix))) [
      | inl e ↦ absurd (
          omega (
            arith,
            ap length ((equal_iff ((stem ++ codes "t64") ++ suffix) (stem ++ suffix)).0 e),
            length-append (stem ++ codes "t64") suffix,
            length-append stem (codes "t64"),
            length-append stem suffix,
          ))
      | inr e ↦ e
    ]

-- The variants that the comment in the source is about are never made: for a name `stem` of two
-- characters or more, the package `stem` + `t64` does not provide `stem`.
pub provide-t64 :
    (stem suffix : Bytes) (out : List Bytes)
    → 1 < length stem
    → contains (provide (stem ++ codes "t64") suffix out) (stem ++ suffix)
      ≡ contains out (stem ++ suffix)
provide-t64 stem suffix out h =
    let long = length-append stem (codes "t64") in
    ap (λ s. contains s (stem ++ suffix))
      (provide-regular (stem ++ codes "t64") suffix out (ground (arith, long)))
    ∙ contains-emplace ((stem ++ codes "t64") ++ suffix) (stem ++ suffix) out
    ∙ ap (◌||◌ (contains out (stem ++ suffix))) (longer_ne stem suffix)
    ∙ or_false (contains out (stem ++ suffix))

names_contain-mem :
    (ns : List Bytes) (n suffix x : Bytes)
    → contains ns n ≡ true
    → gives n suffix x ≡ true
    → names_contain ns suffix x ≡ true
unfolding contains names_contain
names_contain-mem [] n suffix x h e = cc
names_contain-mem (m ∷ ns) n suffix x h e =
    ground (arith, equal_iff m n, names_contain-mem ns n suffix x)

names_contain-emplace :
    (n : Bytes) (ns : List Bytes) (suffix x : Bytes)
    → names_contain (emplace n ns) suffix x ≡ (names_contain ns suffix x || gives n suffix x)
unfolding emplace names_contain
names_contain-emplace n ns suffix x =
    ground (
      arith,
      names_contain-mem ns n suffix x,
      or_comm (names_contain ns suffix x) (gives n suffix x),
    )

pub names_contain-insert_all :
    (xs s : List Bytes) (suffix x : Bytes)
    → names_contain (insert_all xs s) suffix x
      ≡ (names_contain s suffix x || names_contain xs suffix x)
unfolding insert_all names_contain
names_contain-insert_all [] s suffix x = sym (or_false (names_contain s suffix x))
names_contain-insert_all (p ∷ ps) s suffix x =
    names_contain-insert_all ps (emplace p s) suffix x
    ∙ ap (λ b. b || names_contain ps suffix x) (names_contain-emplace p s suffix x)
    ∙ sym (or_assoc (names_contain s suffix x) (gives p suffix x) (names_contain ps suffix x))

pub provide_all-names_contain :
    (ps : List Bytes) (suffix : Bytes) (out : List Bytes) (x : Bytes)
    → contains (provide_all ps suffix out) x ≡ (contains out x || names_contain ps suffix x)
unfolding provide_all names_contain
provide_all-names_contain [] suffix out x = sym (or_false (contains out x))
provide_all-names_contain (p ∷ ps) suffix out x =
    provide_all-names_contain ps suffix (provide p suffix out) x
    ∙ ap (λ b. b || names_contain ps suffix x) (provide-gives p suffix out x)
    ∙ sym (or_assoc (contains out x) (gives p suffix x) (names_contain ps suffix x))
