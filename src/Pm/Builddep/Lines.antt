-- ===== src/Pm/Builddep/Lines.antt =====
-- What `abpm_dump_builddep_req` of native/abnativefunctions.cpp prints.
use autobuild.Base.{
  ℕ, Bool, true, false, not, ◌&&◌, List, [], ◌∷◌, ◌++◌, all, map, Bytes, codes, decimal, ◌≡◌, refl,
  ap, sym, ◌∙◌, arith, and-eq-true, append_assoc, append-nil,
}
use autobuild.Pm.{VersionOp, constraint, deb_op, autobuild_to_deb_version, run, step}
use autobuild.Pm.Reference.{plain}
use autobuild.Pm.Dependency.{IsRelation, autobuild_to_deb_version-relation}
use autobuild.Pm.Builddep.{is_empty, dump_each, abpm_dump_builddep_req}

-- The five operators, as autobuild spells them and as dpkg does.
pub data IsSpelled : Bytes → Bytes → Type 0 where
  earlier : IsSpelled (codes "<<") (codes "<<")
  no_later : IsSpelled (codes "<=") (codes "<=")
  later : IsSpelled (codes ">>") (codes ">>")
  no_earlier : IsSpelled (codes ">=") (codes ">=")
  exactly : IsSpelled (codes "==") (codes "=")

-- A name with a constraint, in the notation of autobuild, and the operator in dpkg's.
pub record Relation : Type 0 where
  pub name : Bytes
  pub token : Bytes
  pub version : Bytes
  pub dpkg_token : Bytes
  pub spelled : IsSpelled token dpkg_token

-- A relation in dpkg's notation: `name (operator version)`.
unfoldable pub dpkg_relation : Relation → Bytes
dpkg_relation r =
    r.name ++ (codes " (" ++ (r.dpkg_token ++ (codes " " ++ (r.version ++ codes ")"))))

IsSpelled-IsRelation :
    {token dpkg_token : Bytes}
    → IsSpelled token dpkg_token
    → (op : VersionOp) × IsRelation op token
      × ((version : Bytes)
          → constraint op version
            ≡ codes " (" ++ (dpkg_token ++ (codes " " ++ (version ++ codes ")"))))
unfolding constraint deb_op
IsSpelled-IsRelation earlier = (VersionOp.lt, IsRelation.lt, λ version. refl)
IsSpelled-IsRelation no_later = (VersionOp.le, IsRelation.le, λ version. refl)
IsSpelled-IsRelation later = (VersionOp.gt, IsRelation.gt, λ version. refl)
IsSpelled-IsRelation no_earlier = (VersionOp.ge, IsRelation.ge, λ version. refl)
IsSpelled-IsRelation exactly = (VersionOp.eq, IsRelation.eq, λ version. refl)

unfoldable pub is_relation : Relation → Bool
is_relation r = not (is_empty r.name) && (all plain r.name && all plain r.version)

abbrev pub word_of : Relation → Bytes
word_of r = r.name ++ (r.token ++ r.version)

-- The lines, a relation in dpkg's notation on each.
unfoldable pub lines_of : List Relation → Bytes
lines_of [] = []
lines_of (r ∷ relations) = codes " " ++ (dpkg_relation r ++ (codes ",\n" ++ lines_of relations))

is_empty-append : (s t : Bytes) → is_empty s ≡ false → is_empty (s ++ t) ≡ false
is_empty-append [] t h = cc
is_empty-append (c ∷ cs) t h = refl

dump_each-lines :
    (relations : List Relation) (words : List Bytes)
    → all is_relation relations ≡ true
    → dump_each (map word_of relations ++ words)
      ≡ (lines_of relations ++ (dump_each words).0, (dump_each words).1)
unfolding dump_each lines_of is_relation dpkg_relation
dump_each-lines [] words h = refl
dump_each-lines (r ∷ relations) words h =
    let both = and-eq-true (is_relation r) (all is_relation relations) h in
    let rest = dump_each-lines relations words both.1 in
    let (op, joined, translated) = IsSpelled-IsRelation r.spelled in
    let converted : autobuild_to_deb_version (word_of r) ≡ dpkg_relation r =
      autobuild_to_deb_version-relation r.name r.version (ground (arith, both.0))
        (ground (arith, both.0)) joined
      ∙ ap (◌++◌ r.name) (translated r.version) in
    let nonempty : is_empty (dpkg_relation r) ≡ false =
      is_empty-append r.name _ (ground (arith, both.0)) in
    rw (dump_each, converted, nonempty, rest)
      (ap (λ s. (codes " " ++ s, (dump_each words).1))
        (sym
          (append_assoc (dpkg_relation r) (codes ",\n" ++ lines_of relations) (dump_each words).0)))

dump_each_nil : (words : List Bytes) → dump_each ([] ∷ words) ≡ ([], 1)
unfolding dump_each autobuild_to_deb_version run step constraint
dump_each_nil words = refl

-- For names with constraints the builtin prints a line `name (operator version),` for each, with the
-- operators `<<`, `<=`, `>>` and `>=` as they are and `==` as `=`, and succeeds; at an empty word it stops behind the lines printed so far, and fails.
pub dump_builddep_req-lines :
    (random : ℕ) (relations : List Relation) (words : List Bytes)
    → all is_relation relations ≡ true
    → let header = codes "Source: ab4-satdep-" ++ (decimal random ++ codes "\nBuild-Depends:\n") in
      (abpm_dump_builddep_req random (map word_of relations) ≡ (header ++ lines_of relations, 0))
      × (abpm_dump_builddep_req random (map word_of relations ++ [] ∷ words)
          ≡ (header ++ lines_of relations, 1))
unfolding abpm_dump_builddep_req dump_each autobuild_to_deb_version
dump_builddep_req-lines random relations words h =
    let header = codes "Source: ab4-satdep-" ++ (decimal random ++ codes "\nBuild-Depends:\n") in
    let printed : (rest : List Bytes)
        → dump_each rest ≡ ([], (dump_each rest).1)
        → dump_each (map word_of relations ++ rest) ≡ (lines_of relations, (dump_each rest).1) =
      λ rest none_more.
        dump_each-lines relations rest h
        ∙ ap (λ r. (lines_of relations ++ r.0, (dump_each rest).1)) none_more
        ∙ ap (λ s. (s, (dump_each rest).1)) (append-nil (lines_of relations)) in
    (
      ap (λ d. (header ++ d.0, d.1))
          (ap dump_each (sym (append-nil (map word_of relations))) ∙ printed [] refl),
      ap (λ d. (header ++ d.0, d.1))
          (printed ([] ∷ words) (dump_each_nil words)
            ∙ ap (λ r. (lines_of relations, r.1)) (dump_each_nil words)),
    )
