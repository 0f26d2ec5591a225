-- ===== src/Shell/Find/Candidates.antt =====
-- Where a file of the package is looked for.
use autobuild.Base.{
  ℕ, Bool, true, false, List, [], ◌∷◌, ◌++◌, ◌≡◌, refl, sym, ap, ◌∙◌, arith, if◌then◌else◌, Option,
  some, Bytes, codes,
}
use autobuild.Shell.{text, cells, Var}
use autobuild.Shell.Find.{
  Found, not_found, or_else, maybe_stage2, stage2, find_in_groups, find_for_group, find_for_host,
  arch_findfile_inner,
}

-- The places for one directory, the best first.
abbrev pub places_in : Bool → Bytes → List Bytes
places_in is_stage2 file = if is_stage2 then (file ++ codes ".stage2") ∷ file ∷ [] else file ∷ []

-- The directory of the host, those of its groups, and the one for all.
abbrev pub places : Bool → Bytes → List Bytes → List Bytes
places is_stage2 path [] = places_in is_stage2 (codes "autobuild/" ++ path)
places is_stage2 path (directory ∷ directories) =
    places_in is_stage2 (codes "autobuild/" ++ (directory ++ (codes "/" ++ path)))
    ++ places is_stage2 path directories

-- The first that exists, and the empty text if none does.
abbrev pub first_existing : (Bytes → Bool) → List Bytes → Bytes
first_existing exists [] = []
first_existing exists (file ∷ files) =
    let rest = first_existing exists files in if exists file then file else rest

module _ (exists : Bytes → Bool) (find_variable : Bytes → Option Var) where
  maybe_stage2-first :
      (c : ℕ) (file : Bytes) (is_stage2 : Bool) (more : List Bytes)
      → first_existing exists (places_in is_stage2 (c ∷ file) ++ more) ≡ (
          if not_found (maybe_stage2 exists find_variable (c ∷ file) is_stage2)
          then first_existing exists more
          else (maybe_stage2 exists find_variable (c ∷ file) is_stage2).0)
  unfolding maybe_stage2
  maybe_stage2-first c file is_stage2 more = ground arith

  maybe_stage2_last :
      (c : ℕ) (file : Bytes) (is_stage2 : Bool)
      → (maybe_stage2 exists find_variable (c ∷ file) is_stage2).0
        ≡ first_existing exists (places_in is_stage2 (c ∷ file))
  unfolding maybe_stage2
  maybe_stage2_last c file is_stage2 = ground arith

  or_else-first : (f r : Found) → (or_else f r).0 ≡ (if not_found f then r.0 else f.0)
  or_else-first ([], warnings) r = refl
  or_else-first (c ∷ cs, warnings) r = refl

  in_directory :
      (path directory : Bytes) (is_stage2 : Bool) (rest : Found) (more : List Bytes)
      → rest.0 ≡ first_existing exists more
      → (or_else
          (maybe_stage2 exists find_variable
            (codes "autobuild/" ++ (directory ++ (codes "/" ++ path)))
            is_stage2)
          rest).0
        ≡ first_existing exists
            (places_in is_stage2 (codes "autobuild/" ++ (directory ++ (codes "/" ++ path))) ++ more)
  in_directory path directory is_stage2 rest more e =
      let found =
        maybe_stage2 exists find_variable (codes "autobuild/" ++ (directory ++ (codes "/" ++ path)))
          is_stage2 in
      or_else-first found rest
      ∙ ap (λ r. if not_found found then r else found.0) e
      ∙ sym (maybe_stage2-first _ _ is_stage2 more)

  find_in_groups-first :
      (path : Bytes) (is_stage2 : Bool) (groups : List Bytes)
      → (find_in_groups exists find_variable path is_stage2 groups).0
        ≡ first_existing exists (places is_stage2 path groups)
  unfolding find_in_groups
  find_in_groups-first path is_stage2 [] = maybe_stage2_last _ _ is_stage2
  find_in_groups-first path is_stage2 (group ∷ groups) =
      in_directory path group is_stage2 (find_in_groups exists find_variable path is_stage2 groups)
        (places is_stage2 path groups) (find_in_groups-first path is_stage2 groups)

  -- If the host and its groups are known, the file that is found is the first that exists: in the
  -- directory of the host, in those of its groups in their order, and then beside them; at each
  -- place the variant for stage 2 comes first, in stage 2 and if the caller asks for it.
  pub arch_findfile_inner-first :
      (path host : Bytes) (groups : List Bytes) (v w : Var) (stage2_aware is_stage2 : Bool)
      → find_variable (codes "ABHOST") ≡ some v
      → v.value ≡ text host
      → find_variable (codes "ABHOST_GROUP") ≡ some w
      → w.is_array ≡ true
      → w.value ≡ cells groups
      → (if stage2_aware then stage2 exists find_variable else some false) ≡ some is_stage2
      → (warnings : List Bytes) × (arch_findfile_inner exists find_variable path stage2_aware
          ≡ some (first_existing exists (places is_stage2 path (host ∷ groups)), warnings))
  unfolding arch_findfile_inner find_for_host find_for_group
  arch_findfile_inner-first path host groups v w stage2_aware is_stage2 a b c d e f =
      let rest = find_in_groups exists find_variable path is_stage2 groups in
      let found =
        or_else
          (maybe_stage2 exists find_variable (codes "autobuild/" ++ (host ++ (codes "/" ++ path)))
            is_stage2)
          rest in
      let first : found.0 ≡ first_existing exists (places is_stage2 path (host ∷ groups)) =
        in_directory path host is_stage2 rest _ (find_in_groups-first path is_stage2 groups) in
      let reached : arch_findfile_inner exists find_variable path stage2_aware ≡ some found =
        ground arith in
      (found.1, reached ∙ ap (λ file. some (file, found.1)) first)
