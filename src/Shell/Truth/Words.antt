-- ===== src/Shell/Truth/Words.antt =====
-- The words for true and for false.
use autobuild.Base.{
  ℕ, Bool, true, false, ◌&&◌, ◌||◌, List, [], ◌∷◌, ◌==◌, ◌≡◌, refl, arith, if◌then◌else◌, subst,
  sym, Bool-cases, inl, inr, equal_iff, some, Bytes, codes, equal, contains,
}
use autobuild.Shell.Truth.{letter, word, autobuild_bool, ab_bool}

abbrev pub truths : List Bytes
truths = codes "1" ∷ codes "y" ∷ codes "Y" ∷ codes "t" ∷ codes "T" ∷ codes "true" ∷ codes "yes" ∷ []

abbrev pub falsehoods : List Bytes
falsehoods =
    codes "0" ∷ codes "n" ∷ codes "N" ∷ codes "f" ∷ codes "F" ∷ codes "false" ∷ codes "no" ∷ []

equal_comm : (s t : Bytes) → equal s t ≡ equal t s
unfolding equal
equal_comm [] [] = refl
equal_comm [] (d ∷ ds) = refl
equal_comm (c ∷ cs) [] = refl
equal_comm (c ∷ cs) (d ∷ ds) = ground (arith, equal_comm cs ds)

of_word : (P : Bytes → Type 0) (v w : Bytes) → equal v w ≡ true → P w → P v
of_word P v w e p = subst P (sym ((equal_iff v w).0 e)) p

abbrev long_word : Bytes → ℕ
long_word v =
    if contains (codes "true" ∷ codes "yes" ∷ []) v
    then 1
    else if contains (codes "false" ∷ codes "no" ∷ []) v
    then 0
    else 2

no_word :
    (v : Bytes)
    → equal v (codes "false") ≡ false
    → equal v (codes "true") ≡ false
    → equal v (codes "yes") ≡ false
    → equal v (codes "no") ≡ false
    → word v ≡ long_word v
unfolding word contains
no_word v a b c d = ground (
  arith,
  equal_comm v (codes "false"),
  equal_comm v (codes "true"),
  equal_comm v (codes "yes"),
  equal_comm v (codes "no"),
)

word-long_word : (v : Bytes) → word v ≡ long_word v
unfolding word contains equal
word-long_word v = elim (Bool-cases (equal v (codes "false"))) [
  | inl e ↦ of_word (λ s. word s ≡ long_word s) v _ e refl
  | inr a ↦ elim (Bool-cases (equal v (codes "true"))) [
    | inl e ↦ of_word (λ s. word s ≡ long_word s) v _ e refl
    | inr b ↦ elim (Bool-cases (equal v (codes "yes"))) [
      | inl e ↦ of_word (λ s. word s ≡ long_word s) v _ e refl
      | inr c ↦ elim (Bool-cases (equal v (codes "no"))) [
        | inl e ↦ of_word (λ s. word s ≡ long_word s) v _ e refl
        | inr d ↦ no_word v a b c d
      ]
    ]
  ]
]

never : (b rest : Bool) → ((b && false) || rest) ≡ rest
never true rest = refl
never false rest = refl

long_truths :
    (c d : ℕ) (cs : Bytes)
    → contains truths (c ∷ d ∷ cs) ≡ contains (codes "true" ∷ codes "yes" ∷ []) (c ∷ d ∷ cs)
unfolding contains equal
long_truths c d cs = simp never

long_falsehoods :
    (c d : ℕ) (cs : Bytes)
    → contains falsehoods (c ∷ d ∷ cs) ≡ contains (codes "false" ∷ codes "no" ∷ []) (c ∷ d ∷ cs)
unfolding contains equal
long_falsehoods c d cs = simp never

long_words :
    (v : Bytes)
    → word v ≡ long_word v
    → contains truths v ≡ contains (codes "true" ∷ codes "yes" ∷ []) v
    → contains falsehoods v ≡ contains (codes "false" ∷ codes "no" ∷ []) v
    → ◌≡◌ {A = ℕ}
        (if word v == 0 then 1 else if word v == 1 then 0 else 2)
        (if contains truths v then 0 else if contains falsehoods v then 1 else 2)
long_words v w t f = ground arith

-- The builtin succeeds on the words for true, gives 1 on those for false, and 2 on all others.
pub ab_bool-words :
    (v : Bytes)
    → ab_bool (some v) ≡ (if contains truths v then 0 else if contains falsehoods v then 1 else 2)
unfolding ab_bool autobuild_bool letter word contains equal
ab_bool-words [] = refl
ab_bool-words (c ∷ []) = ground arith
ab_bool-words (c ∷ d ∷ cs) =
    long_words (c ∷ d ∷ cs) (word-long_word (c ∷ d ∷ cs)) (long_truths c d cs)
      (long_falsehoods c d cs)
