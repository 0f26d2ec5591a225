-- ===== src/Pm/Reference.antt =====
-- What native/pm.cpp computes, said without the state machine: the name is what stands before
-- the first operator character, and the rest is searched for the character that completes it.
use autobuild.Base.{
  ℕ, Bool, true, false, not, ◌||◌, [], ◌∷◌, ◌++◌, ◌≡◌, refl, arith, ◌==◌, if◌then◌else◌, Option,
  none, some, append-nil, append_assoc, Bytes, keep,
}
use autobuild.Pm.{VersionOp, Parser, step, run, initial, constraint, autobuild_to_deb_version}

-- A character that is part of no operator.
abbrev pub plain : ℕ → Bool
plain c = not (c == b'<' || c == b'>' || c == b'=')

-- The operator that two characters make.
abbrev pub pair : ℕ → ℕ → Option VersionOp
pair c d =
    if c == b'<'
    then if d == b'<' then some VersionOp.lt else if d == b'=' then some VersionOp.le else none
    else if c == b'>'
    then if d == b'>' then some VersionOp.gt else if d == b'=' then some VersionOp.ge else none
    else if d == b'='
    then some VersionOp.eq
    else none

-- The text behind a first operator character `c`, up to the closing parenthesis.
unfoldable pub complete : ℕ → Bytes → Bytes
complete c [] = []
complete c (d ∷ ds) = elim (pair c d) [
  | some o ↦ constraint o (keep plain ds)
  | none ↦ complete c ds
]

unfoldable pub reference : Bytes → Bytes
unfolding complete
reference [] = []
reference (c ∷ cs) = elim (plain c) [ true ↦ c ∷ reference cs | false ↦ complete c cs ]

-- The state that a first operator character leads to.
abbrev state_of : ℕ → ℕ
state_of c = if c == b'<' then 1 else if c == b'>' then 2 else 3

abbrev result : Parser → Bytes
result p = p.name ++ constraint p.op p.version

run_version :
    (cs : Bytes) (p : Parser)
    → p.state ≡ 10
    → run p cs ≡ record p { version = p.version ++ keep plain cs }
unfolding run step
run_version [] p h = rw append-nil
run_version (c ∷ cs) p h = ground (
  arith,
  run_version cs (record p { version = p.version ++ c ∷ [] }) h,
  run_version cs p h,
  append_assoc p.version (c ∷ []) (keep plain cs),
)

-- The state stays in step with the first operator character until the second one comes.
run-complete :
    (cs : Bytes) (c : ℕ) (p : Parser)
    → plain c ≡ false
    → p.state ≡ state_of c
    → p.op ≡ VersionOp.invalid
    → p.version ≡ []
    → result (run p cs) ≡ p.name ++ complete c cs
unfolding run step complete
run-complete [] c p x h o v = unfold constraint in ground arith
run-complete (d ∷ ds) c p x h o v = ground (
  arith,
  run_version ds (record p { op = VersionOp.lt; state = 10 }) refl,
  run_version ds (record p { op = VersionOp.le; state = 10 }) refl,
  run_version ds (record p { op = VersionOp.gt; state = 10 }) refl,
  run_version ds (record p { op = VersionOp.ge; state = 10 }) refl,
  run_version ds (record p { op = VersionOp.eq; state = 10 }) refl,
  run-complete ds c p x h o v,
)

run-reference :
    (cs : Bytes) (p : Parser)
    → p.state ≡ 0
    → p.op ≡ VersionOp.invalid
    → p.version ≡ []
    → result (run p cs) ≡ p.name ++ reference cs
unfolding run step reference
run-reference [] p h o v = unfold constraint in ground arith
run-reference (c ∷ cs) p h o v = ground (
  arith,
  run-reference cs (record p { name = p.name ++ c ∷ [] }) h o v,
  append_assoc p.name (c ∷ []) (reference cs),
  run-complete cs c (record p { state = 1 }),
  run-complete cs c (record p { state = 2 }),
  run-complete cs c (record p { state = 3 }),
)

-- The state machine computes the reference, on every input.
pub autobuild_to_deb_version-reference : (s : Bytes) → autobuild_to_deb_version s ≡ reference s
unfolding autobuild_to_deb_version
autobuild_to_deb_version-reference s = run-reference s initial refl refl refl
