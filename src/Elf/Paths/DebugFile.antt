-- ===== src/Elf/Paths/DebugFile.antt =====
-- Where the debug symbols of a build id are kept.
use mathlib.Core.List.{append_cancel_left, append_cancel_right}
use autobuild.Base.{
  ℕ, false, [], ◌∷◌, ◌++◌, ◌≡◌, ◌≢◌, refl, sym, ap, ◌∙◌, arith, if◌then◌else◌, some, Bytes, codes,
  equal, length, drop, append_assoc,
}
use autobuild.Elf.Paths.{has_slash, is_absolute, join, get_filename_from_build_id}

-- The directory with its slash.
abbrev pub with_slash : Bytes → Bytes
with_slash [] = []
with_slash (c ∷ cs) =
    if equal (drop (length cs) (c ∷ cs)) (codes "/") then c ∷ cs else (c ∷ cs) ++ (b'/' ∷ [])

join_relative : (p q : Bytes) → is_absolute q ≡ false → join p q ≡ with_slash p ++ q
unfolding join
join_relative [] q h = refl
join_relative (c ∷ cs) q h = ground (arith, append_assoc (c ∷ cs) (b'/' ∷ []) q)

last_byte : (c : ℕ) (p : Bytes) (b : ℕ) → drop (length (p ++ b ∷ [])) (c ∷ (p ++ b ∷ [])) ≡ b ∷ []
last_byte c [] b = refl
last_byte c (d ∷ p) b = last_byte d p b

last_of : (p : Bytes) (b : ℕ) → b ≢ b'/' → with_slash (p ++ b ∷ []) ≡ (p ++ b ∷ []) ++ (b'/' ∷ [])
unfolding equal
last_of [] b n = ground arith
last_of (c ∷ p) b n = rw (last_byte c p b) (ground arith)

relative_debug :
    (rest : Bytes) → has_slash rest ≡ false → is_absolute (rest ++ codes ".debug") ≡ false
unfolding has_slash
relative_debug [] h = refl
relative_debug (c ∷ rest) h = ground arith

-- A build id of two characters or more names a file in a directory for its first two.
pub get_filename_from_build_id_lem :
    (a b : ℕ) (rest dst : Bytes)
    → has_slash (a ∷ b ∷ rest) ≡ false
    → get_filename_from_build_id (a ∷ b ∷ rest) dst
      ≡ some (
          with_slash dst
          ++ (codes "usr/lib/debug/.build-id/" ++ (a ∷ b ∷ b'/' ∷ (rest ++ codes ".debug"))))
unfolding get_filename_from_build_id has_slash
get_filename_from_build_id_lem a b rest dst h =
    let dir = codes "usr/lib/debug/.build-id/" in
    let file = rest ++ codes ".debug" in
    let front = with_slash dst ++ (dir ++ a ∷ []) in
    let regroup : with_slash dst ++ (dir ++ a ∷ b ∷ []) ≡ front ++ b ∷ [] =
      sym (append_assoc (with_slash dst) (dir ++ a ∷ []) (b ∷ [])) in
    let opened : get_filename_from_build_id (a ∷ b ∷ rest) dst
        ≡ some (join (join dst (dir ++ a ∷ b ∷ [])) file) =
      ground arith in
    opened
    ∙ ap some (
        ap (λ p. join p file) (join_relative dst (dir ++ a ∷ b ∷ []) refl ∙ regroup)
        ∙ join_relative (front ++ b ∷ []) file (relative_debug rest (ground arith))
        ∙ ap (λ p. p ++ file) (last_of front b (ground arith))
        ∙ simp append_assoc)

some_eq : {x y : Bytes} → some x ≡ some y → x ≡ y
some_eq e = cc

-- Files with different build ids are kept apart.
pub get_filename_from_build_id-injective :
    (a b a' b' : ℕ) (rest rest' dst : Bytes)
    → has_slash (a ∷ b ∷ rest) ≡ false
    → has_slash (a' ∷ b' ∷ rest') ≡ false
    → get_filename_from_build_id (a ∷ b ∷ rest) dst
      ≡ get_filename_from_build_id (a' ∷ b' ∷ rest') dst
    → ◌≡◌ {A = Bytes} (a ∷ b ∷ rest) (a' ∷ b' ∷ rest')
get_filename_from_build_id-injective a b a' b' rest rest' dst h h' e =
    let dir = codes "usr/lib/debug/.build-id/" in
    let tail = λ (x y : ℕ) (r : Bytes). x ∷ y ∷ b'/' ∷ (r ++ codes ".debug") in
    let same : some (with_slash dst ++ (dir ++ tail a b rest))
        ≡ some (with_slash dst ++ (dir ++ tail a' b' rest')) =
      sym (get_filename_from_build_id_lem a b rest dst h)
      ∙ e
      ∙ get_filename_from_build_id_lem a' b' rest' dst h' in
    let tails : tail a b rest ≡ tail a' b' rest' =
      append_cancel_left dir _ _ (append_cancel_left (with_slash dst) _ _ (some_eq same)) in
    let ends : rest ++ codes ".debug" ≡ rest' ++ codes ".debug" = cc tails in
    cc (tails, append_cancel_right rest rest' (codes ".debug") ends)
