-- ===== src/Shell/Archive/Pool.antt =====
-- The two builtins of native/abnativefunctions.cpp that archive packages, against the place of a
-- package in the pool.
use autobuild.Base.{
  ℕ, lt→ltb, false, List, [], ◌∷◌, ◌++◌, Option, some, Bytes, codes, equal, length, starts_with,
  ◌≡◌, ◌≢◌, refl, arith,
}
use autobuild.Elf.Paths.{join}
use autobuild.Shell.Archive.{
  Deed, creates, copies, prints, prefix, element_prefix, archive_file, archive_element,
  archive_each, deb_name, abpm_aosc_archive, abpm_aosc_archive_new,
}

-- The letters under which a package stands: of a library the first behind `lib` too, of any other
-- package the first alone.
pub data IsFiled : Bytes → Bytes → Type 0 where
  library :
      (c : ℕ) (cs : Bytes) → c ≢ b'/' → IsFiled (codes "lib" ++ (c ∷ cs)) (codes "lib" ++ (c ∷ []))
  other :
      (c : ℕ) (cs : Bytes)
      → c ≢ b'/'
      → starts_with (codes "lib") (c ∷ cs) ≡ false
      → IsFiled (c ∷ cs) (c ∷ [])

-- The folder is made, the file is copied there, and both are printed.
abbrev pub filed : Bytes → Bytes → List Deed
filed letters filename =
    let folder = codes "/debs/" ++ letters in
    let path = folder ++ (codes "/" ++ filename) in
    creates folder
    ∷ copies filename path
    ∷ prints (codes "'" ++ (filename ++ (codes "' -> '" ++ (path ++ codes "'\n"))))
    ∷ []

-- A name of four characters or more that does not begin with `lib`.
not_library :
    (c d e f : ℕ) (cs : Bytes)
    → starts_with (codes "lib") (c ∷ d ∷ e ∷ f ∷ cs) ≡ false
    → equal (c ∷ d ∷ e ∷ []) (codes "lib") ≡ false
unfolding equal starts_with
not_library c d e f cs h = ground (arith, h)

prefix-IsFiled : {name letters : Bytes} → IsFiled name letters → prefix name ≡ letters
unfolding prefix equal
prefix-IsFiled (library c cs n) =
    rw (lt→ltb 3 (length (codes "lib" ++ (c ∷ cs))) (omega arith)) refl
prefix-IsFiled (other c [] n h) = refl
prefix-IsFiled (other c (d ∷ []) n h) = refl
prefix-IsFiled (other c (d ∷ e ∷ []) n h) = refl
prefix-IsFiled (other c (d ∷ e ∷ f ∷ cs) n h) =
    rw (lt→ltb 3 (length (c ∷ d ∷ e ∷ f ∷ cs)) (omega arith), not_library c d e f cs h) refl

element_prefix-IsFiled :
    {name letters : Bytes} → IsFiled name letters → element_prefix name ≡ letters
unfolding element_prefix equal
element_prefix-IsFiled (library c cs n) =
    rw (lt→ltb 3 (length (codes "lib" ++ (c ∷ cs))) (omega arith)) refl
element_prefix-IsFiled (other c [] n h) = refl
element_prefix-IsFiled (other c (d ∷ []) n h) = refl
element_prefix-IsFiled (other c (d ∷ e ∷ []) n h) = refl
element_prefix-IsFiled (other c (d ∷ e ∷ f ∷ cs) n h) =
    rw (lt→ltb 3 (length (c ∷ d ∷ e ∷ f ∷ cs)) (omega arith), not_library c d e f cs h) refl

-- The name of a package's file stands under the letters of the package.
IsFiled-file :
    {name letters : Bytes} (rest : Bytes)
    → IsFiled name letters
    → IsFiled (name ++ (b'_' ∷ rest)) letters
unfolding starts_with
IsFiled-file rest (library c cs n) = library c (cs ++ (b'_' ∷ rest)) n
IsFiled-file rest (other c [] n h) = other c (b'_' ∷ rest) n (ground (arith, h))
IsFiled-file rest (other c (d ∷ []) n h) = other c (d ∷ b'_' ∷ rest) n (ground (arith, h))
IsFiled-file rest (other c (d ∷ e ∷ cs) n h) =
    other c (d ∷ e ∷ (cs ++ (b'_' ∷ rest))) n (ground (arith, h))

-- The folder, and a path in it.
joined :
    {name letters : Bytes}
    → IsFiled name letters
    → (join (codes "/debs") letters ≡ codes "/debs/" ++ letters)
      × ((rest : Bytes)
          → join (codes "/debs/" ++ letters) (name ++ rest)
            ≡ (codes "/debs/" ++ letters) ++ (codes "/" ++ (name ++ rest)))
unfolding join equal
joined (library c cs n) = (refl, λ rest. ground (arith, n))
joined (other c cs n h) = (ground (arith, n), λ rest. ground (arith, n))

-- For a package whose name stands under some letters, which no slash is among, both builtins make
-- the folder `/debs/` with those letters, copy the file of the package there and print both paths,
-- and succeed: the one is given the parts of the file's name, the other the name in an array.
pub archive-archive_new :
    (find_array : Bytes → Option (List Bytes)) (array name letters version release arch : Bytes)
    → IsFiled name letters
    → find_array array ≡ some (deb_name name version release arch ∷ [])
    → (abpm_aosc_archive (some name ∷ some version ∷ some release ∷ some arch ∷ [])
        ≡ (filed letters (deb_name name version release arch), 0))
      × (abpm_aosc_archive_new find_array (some array ∷ [])
          ≡ (filed letters (deb_name name version release arch), 0))
unfolding abpm_aosc_archive abpm_aosc_archive_new archive_each archive_file archive_element deb_name
archive-archive_new find_array array name letters version release arch f has =
    let details = version ++ (b'_' ∷ (release ++ (b'_' ∷ (arch ++ codes ".deb")))) in
    let rest = b'_' ∷ details in
    let (folder, path) = joined f in
    let letters_of_file = element_prefix-IsFiled (IsFiled-file details f) in
    (
      rw (prefix-IsFiled f, folder, path rest) refl,
      rw
          (
            abpm_aosc_archive_new,
            has,
            archive_each,
            archive_each,
            letters_of_file,
            folder,
            path rest,
          )
          refl,
    )
