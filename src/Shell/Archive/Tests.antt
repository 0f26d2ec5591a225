-- ===== src/Shell/Archive/Tests.antt =====
-- The statement about the two archiving builtins at one package.
use autobuild.Base.{refl, arith, [], ◌∷◌, ◌≡◌, some, codes, Bytes, Option, List}
use autobuild.Shell.Archive.{deb_name, abpm_aosc_archive, abpm_aosc_archive_new}
use autobuild.Shell.Archive.Pool.{filed, library, archive-archive_new}

abbrev one_package : Bytes → Option (List Bytes)
one_package array = some (deb_name (codes "libz") (codes "1") (codes "0") (codes "amd64") ∷ [])

archive-archive_new_example :
    (abpm_aosc_archive
        (some (codes "libz") ∷ some (codes "1") ∷ some (codes "0") ∷ some (codes "amd64") ∷ [])
      ≡ (filed (codes "libz") (codes "libz_1_0_amd64.deb"), 0))
    × (abpm_aosc_archive_new one_package (some (codes "PKGS") ∷ [])
        ≡ (filed (codes "libz") (codes "libz_1_0_amd64.deb"), 0))
unfolding deb_name
archive-archive_new_example =
    archive-archive_new one_package (codes "PKGS") (codes "libz") (codes "libz") (codes "1")
      (codes "0") (codes "amd64") (library b'z' [] (λ same. omega (arith, same))) refl
