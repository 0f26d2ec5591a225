-- ===== src/Shell/Archive.antt =====
-- `abpm_aosc_archive` and `abpm_aosc_archive_new` of native/abnativefunctions.cpp.
pub mod Pool
mod Tests
use autobuild.Base.{
  ℕ, suc, Bool, true, false, ◌&&◌, ltb, List, [], ◌∷◌, ◌++◌, if◌then◌else◌, Option, none, some,
  Bytes, codes, equal, length, take, substr,
}
use autobuild.Elf.Paths.{join}
use autobuild.Shell.Words.{WordList}

-- What is done to the file system, and what is printed.
pub data Deed : Type 0 where
  creates : Bytes → Deed
  copies : Bytes → Bytes → Deed
  prints : Bytes → Deed

-- `package_name[0]`: of an empty text, the byte that ends it.
abbrev first_letter : Bytes → Bytes
first_letter [] = 0 ∷ []
first_letter (c ∷ cs) = c ∷ []

unfoldable pub prefix : Bytes → Bytes
prefix package_name =
    if ltb 3 (length package_name) && equal (substr package_name 0 3) (codes "lib")
    then substr package_name 0 4
    else first_letter package_name

-- What `abpm_aosc_archive` does with the file of a package.
unfoldable pub archive_file : Bytes → Bytes → List Deed
archive_file package_name package_filename =
    let folder = join (codes "/debs") (prefix package_name) in
    let path = join folder package_filename in
    creates folder
    ∷ copies package_filename path
    ∷ prints (codes "'" ++ (package_filename ++ (codes "' -> '" ++ (path ++ codes "'\n"))))
    ∷ []

unfoldable pub deb_name : Bytes → Bytes → Bytes → Bytes → Bytes
deb_name package_name version release arch =
    package_name ++ (b'_' ∷ (version ++ (b'_' ∷ (release ++ (b'_' ∷ (arch ++ codes ".deb"))))))

unfoldable pub abpm_aosc_archive : WordList → List Deed × ℕ
abpm_aosc_archive (some package_name ∷ some version ∷ some release ∷ some arch ∷ list) =
    (archive_file package_name (deb_name package_name version release arch), 0)
abpm_aosc_archive (some package_name ∷ some version ∷ some release ∷ none ∷ list) = ([], 1)
abpm_aosc_archive (some package_name ∷ some version ∷ some release ∷ []) = ([], 1)
abpm_aosc_archive (some package_name ∷ some version ∷ none ∷ list) = ([], 1)
abpm_aosc_archive (some package_name ∷ some version ∷ []) = ([], 1)
abpm_aosc_archive (some package_name ∷ none ∷ list) = ([], 1)
abpm_aosc_archive (some package_name ∷ []) = ([], 1)
abpm_aosc_archive (none ∷ list) = ([], 1)
abpm_aosc_archive [] = ([], 1)

-- The prefix in the loop of `abpm_aosc_archive_new`, where an element is the name of a file.
unfoldable pub element_prefix : Bytes → Bytes
element_prefix package_name =
    if ltb 3 (length package_name) && equal (substr package_name 0 3) (codes "lib")
    then substr package_name 0 4
    else first_letter package_name

-- The body of that loop.
unfoldable pub archive_element : Bytes → List Deed
archive_element package_name =
    let folder = join (codes "/debs") (element_prefix package_name) in
    let path = join folder package_name in
    creates folder
    ∷ copies package_name path
    ∷ prints (codes "'" ++ (package_name ++ (codes "' -> '" ++ (path ++ codes "'\n"))))
    ∷ []

unfoldable pub archive_each : List Bytes → List Deed
archive_each [] = []
archive_each (package_name ∷ packages) = archive_element package_name ++ archive_each packages

-- `find_array` gives the values of the array of a name, if it is one.
unfoldable pub abpm_aosc_archive_new : (Bytes → Option (List Bytes)) → WordList → List Deed × ℕ
abpm_aosc_archive_new find_array (some packages ∷ list) = elim (find_array packages) [
  | none ↦ ([], 1)
  | some names ↦ (archive_each names, 0)
]
abpm_aosc_archive_new find_array (none ∷ list) = ([], 1)
abpm_aosc_archive_new find_array [] = ([], 1)
