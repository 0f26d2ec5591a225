-- ===== src/Shell/Words/Joined.antt =====
-- When `get_all_args` of native/abnativefunctions.cpp comes to its end, and what it gives.
use autobuild.Base.{
  ℕ, zero, suc, ◌≤◌, List, [], ◌∷◌, ◌++◌, none, some, Bytes, codes, Bool, done, spin, if◌then◌else◌,
  ◌≡◌, refl, ap, sym, ◌∙◌, length, map, arith, append_assoc, append-nil,
}
use autobuild.Shell.Words.{WordList, gather, get_all_args}

-- The texts with a space between any two.
unfoldable pub join : List Bytes → Bytes
join [] = []
join (word ∷ []) = word
join (word ∷ next ∷ words) = word ++ (codes " " ++ join (next ∷ words))

module _ (ansicstr : Bytes → Bytes) where
  abbrev pub translated : Bool → Bytes → Bytes
  translated escape word = if escape then ansicstr word else word

  gather-join :
      (escape : Bool) (words : List Bytes) (fuel : ℕ) (args : Bytes)
      → length words ≤ fuel
      → gather ansicstr escape fuel args (map some words)
        ≡ done (args ++ join (map (translated escape) words))
  unfolding gather join
  gather-join escape [] fuel args h = ap done (sym (append-nil args))
  gather-join escape (word ∷ words) zero args h = absurd (omega (arith, h))
  gather-join escape (word ∷ []) (suc fuel) args h =
      ap (λ s. done (args ++ s)) (append-nil (translated escape word))
  gather-join escape (word ∷ next ∷ words) (suc fuel) args h =
      gather-join escape (next ∷ words) fuel _ (omega (arith, h))
      ∙ ap done (
          append_assoc args (translated escape word ++ codes " ") _
          ∙ ap (λ s. args ++ s) (append_assoc (translated escape word) (codes " ") _))

  gather_null :
      (escape : Bool) (list : WordList) (fuel : ℕ) (args : Bytes)
      → gather ansicstr escape fuel args (none ∷ list) ≡ spin
  unfolding gather
  gather_null escape list zero args = refl
  gather_null escape list (suc fuel) args = gather_null escape list fuel args

  gather_spins :
      (escape : Bool) (words : List Bytes) (list : WordList) (fuel : ℕ) (args : Bytes)
      → gather ansicstr escape fuel args (map some words ++ none ∷ list) ≡ spin
  unfolding gather
  gather_spins escape [] list fuel args = gather_null escape list fuel args
  gather_spins escape (word ∷ words) list zero args = refl
  gather_spins escape (word ∷ words) list (suc fuel) args = gather_spins escape words list fuel _

  -- With a round for each word, the words are joined with spaces, and translated if that is asked
  -- for; but with a null word among them no number of rounds is enough.
  pub get_all_args-join :
      (escape : Bool) (words : List Bytes) (list : WordList) (fuel : ℕ)
      → length words ≤ fuel
      → (get_all_args ansicstr fuel (map some words) escape
          ≡ done (join (map (translated escape) words)))
        × ((rounds : ℕ)
            → get_all_args ansicstr rounds (map some words ++ none ∷ list) escape ≡ spin)
  unfolding get_all_args
  get_all_args-join escape words list fuel h =
      (gather-join escape words fuel [] h, λ rounds. gather_spins escape words list rounds [])
