-- ===== src/Pm/Tests.antt =====
-- Dependencies in both notations.
use autobuild.Base.{◌++◌, ◌≡◌, refl, codes, [], ◌∷◌, decimal}
use autobuild.Pm.Builddep.{abpm_dump_builddep_req}
use autobuild.Pm.Builddep.Lines.{
  Relation, no_earlier, dpkg_relation, is_relation, lines_of, dump_builddep_req-lines,
}
use autobuild.Pm.{autobuild_to_deb_version}
use autobuild.Pm.Reference.{reference, autobuild_to_deb_version-reference}

at_least : autobuild_to_deb_version (codes "glibc>=2.36") ≡ codes "glibc (>= 2.36)"
unfolding autobuild_to_deb_version
at_least = refl

below : autobuild_to_deb_version (codes "gcc<<13=") ≡ codes "gcc (<< 13)"
unfolding autobuild_to_deb_version
below = refl

autobuild_to_deb_version-reference_example :
    autobuild_to_deb_version (codes "a<b=c>d") ≡ reference (codes "a<b=c>d")
autobuild_to_deb_version-reference_example = autobuild_to_deb_version-reference (codes "a<b=c>d")

abbrev glibc : Relation
glibc = record {
  name = codes "glibc";
  token = codes ">=";
  version = codes "2.38";
  dpkg_token = codes ">=";
  spelled = no_earlier;
}

dump_builddep_req-lines_example :
    let header = codes "Source: ab4-satdep-" ++ (decimal 7 ++ codes "\nBuild-Depends:\n") in
    (abpm_dump_builddep_req 7 (codes "glibc>=2.38" ∷ []) ≡ (header ++ lines_of (glibc ∷ []), 0))
    × (abpm_dump_builddep_req 7 (codes "glibc>=2.38" ∷ [] ∷ [])
        ≡ (header ++ lines_of (glibc ∷ []), 1))
unfolding is_relation
dump_builddep_req-lines_example = dump_builddep_req-lines 7 (glibc ∷ []) [] refl

lines_of-glibc : lines_of (glibc ∷ []) ≡ codes " glibc (>= 2.38),\n"
unfolding lines_of dpkg_relation
lines_of-glibc = refl
