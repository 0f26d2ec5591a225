-- ===== src/Pm/Dependency.antt =====
-- Dependencies that are well formed, and those that have half an operator.
use autobuild.Base.{
  ℕ, true, false, [], ◌∷◌, ◌++◌, ◌≡◌, refl, ap, ◌∙◌, arith, append-nil, Bytes, codes, all, keep,
  keep-all,
}
use autobuild.Pm.{VersionOp, constraint, autobuild_to_deb_version}
use autobuild.Pm.Reference.{plain, complete, reference, autobuild_to_deb_version-reference}

-- autobuild's spelling of an operator, and `none` for the two that it cannot write.
pub data IsRelation : VersionOp → Bytes → Type 0 where
  lt : IsRelation VersionOp.lt (codes "<<")
  le : IsRelation VersionOp.le (codes "<=")
  gt : IsRelation VersionOp.gt (codes ">>")
  ge : IsRelation VersionOp.ge (codes ">=")
  eq : IsRelation VersionOp.eq (codes "==")

reference-plain :
    (name rest : Bytes) → all plain name ≡ true → reference (name ++ rest) ≡ name ++ reference rest
unfolding reference
reference-plain [] rest h = refl
reference-plain (c ∷ cs) rest h = ground (arith, reference-plain cs rest)

reference_relation :
    {o : VersionOp} {token : Bytes} (version : Bytes)
    → IsRelation o token
    → reference (token ++ version) ≡ constraint o (keep plain version)
unfolding reference complete
reference_relation version lt = refl
reference_relation version le = refl
reference_relation version gt = refl
reference_relation version ge = refl
reference_relation version eq = refl

complete-plain :
    (c : ℕ) (rest : Bytes) → plain c ≡ false → all plain rest ≡ true → complete c rest ≡ []
unfolding complete
complete-plain c [] h a = refl
complete-plain c (d ∷ ds) h a = ground (arith, complete-plain c ds h)

module _ (name rest : Bytes) (p : all plain name ≡ true) (q : all plain rest ≡ true) where
  -- A name and a version without operator characters, joined by one of the five operators,
  -- become the name and the constraint in dpkg's notation.
  pub autobuild_to_deb_version-relation :
      {o : VersionOp} {token : Bytes}
      → IsRelation o token
      → autobuild_to_deb_version (name ++ (token ++ rest)) ≡ name ++ constraint o rest
  autobuild_to_deb_version-relation {o} {token} r =
      autobuild_to_deb_version-reference (name ++ (token ++ rest))
      ∙ reference-plain name (token ++ rest) p
      ∙ ap (◌++◌ name) (reference_relation rest r ∙ ap (constraint o) (keep-all plain rest q))

  -- Half an operator is no constraint: it and all that stands behind it are dropped, and the
  -- bare name is returned as if no version had been asked for.
  pub autobuild_to_deb_version-lone_operator :
      (c : ℕ) → plain c ≡ false → autobuild_to_deb_version (name ++ (c ∷ rest)) ≡ name
  unfolding reference
  autobuild_to_deb_version-lone_operator c h =
      autobuild_to_deb_version-reference (name ++ (c ∷ rest))
      ∙ reference-plain name (c ∷ rest) p
      ∙ ground (arith, complete-plain c rest h q, append-nil name)
