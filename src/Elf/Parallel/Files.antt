-- ===== src/Elf/Parallel/Files.antt =====
-- What the threads do together, file by file.
use autobuild.Base.{
  ℕ, Bool, true, false, not, ◌&&◌, ◌||◌, List, [], ◌∷◌, ◌++◌, map, if◌then◌else◌, Option, none,
  some, ◌≡◌, refl, sym, ap, ◌∙◌, arith, Option-cases, Outcome-cases, inl, inr, done, fault, spin,
  Bytes, emplace, insert_all, contains, contains-insert_all, contains-emplace, or_false, subst,
  equal, is_zero,
}
use autobuild.Elf.Arch.{aosc_arch_to_debian_arch_suffix}
use autobuild.Elf.Identify.{ElfParseResult}
use autobuild.Elf.Paths.{in_usr_lib}
use autobuild.Elf.Parallel.{File, Sets, emplace_each, worked, worker}
use autobuild.Elf.Strip.{
  Flags, elf_copy_debug_symbols, is_empty, emplace_suffixed, collect_sonames, collect_symbols,
  process,
}
use autobuild.ThreadPool.{Work, access, ended}
use autobuild.ThreadPool.Held.{Fails, Adds}

-- The names that a file puts into the set of sonames.
abbrev pub offered : Flags → Bool → ElfParseResult → List Bytes
offered flags in_lib r =
    let suffixes = aosc_arch_to_debian_arch_suffix r.arch in
    if flags.find_sonames && in_lib && not (is_empty r.soname)
    then if is_empty suffixes then r.soname ∷ [] else map (λ x. r.soname ++ (b':' ∷ x)) suffixes
    else []

emplace_suffixed-insert_all :
    (soname : Bytes) (suffixes sonames : List Bytes)
    → emplace_suffixed soname suffixes sonames
      ≡ insert_all (map (λ x. soname ++ (b':' ∷ x)) suffixes) sonames
unfolding emplace_suffixed insert_all
emplace_suffixed-insert_all soname [] sonames = refl
emplace_suffixed-insert_all soname (x ∷ xs) sonames =
    emplace_suffixed-insert_all soname xs (emplace (soname ++ (b':' ∷ x)) sonames)

collect_sonames-offered :
    (flags : Flags) (in_lib : Bool) (r : ElfParseResult) (sonames : List Bytes)
    → collect_sonames flags in_lib r sonames ≡ insert_all (offered flags in_lib r) sonames
unfolding collect_sonames insert_all
collect_sonames-offered flags in_lib r sonames =
    ground
      (arith, emplace_suffixed-insert_all r.soname (aosc_arch_to_debian_arch_suffix r.arch) sonames)

-- A file that can be read and identified.
abbrev pub read : File → Option ElfParseResult
read file =
    if file.opened && file.measured
    then elim file.identified [ done r ↦ some r | fault ↦ none | spin ↦ none ]
    else none

module _ (files : Bytes → File) (flags : Flags) where
  -- The libraries that a file needs, if they are asked for.
  abbrev pub needed_by : Bytes → List Bytes
  needed_by src = elim (read (files src)) [
    | none ↦ []
    | some r ↦ if flags.find_so_deps then r.needed_libs else []
  ]

  -- The names that it offers, if they are asked for.
  abbrev pub offered_by : Bytes → List Bytes
  offered_by src = elim (read (files src)) [
    | none ↦ []
    | some r ↦ elim (in_usr_lib src) [ none ↦ [] | some in_lib ↦ offered flags in_lib r ]
  ]

module _ (exec : List Bytes → ℕ) (files : Bytes → File) (symdir : Bytes) (flags : Flags) where
  -- A file that cannot be read, or for which a program has failed.
  abbrev pub failed : Bytes → Bool
  failed src = elim (read (files src)) [
    | none ↦ true
    | some r ↦ elim (process exec src symdir flags r) [
      | none ↦ true
      | some (events, status) ↦ not (is_zero status)
    ]
  ]

  -- What a file puts into empty sets, and its status.
  copy_lem :
      (src : Bytes) (c : autobuild.Elf.Strip.Copied)
      → elf_copy_debug_symbols exec
          (files src).opened
          (files src).measured
          (files src).identified
          src
          symdir
          flags
          []
          []
        ≡ done c
      → (c.symbols ≡ insert_all (needed_by files flags src) [])
        × (c.sonames ≡ insert_all (offered_by files flags src) [])
        × (not (is_zero c.status) ≡ failed src)
  unfolding elf_copy_debug_symbols collect_symbols insert_all
  copy_lem src c h = (
    ground arith,
    elim (Outcome-cases (files src).identified) [
      | inl e ↦ ground (arith, e)
      | inr (inl e) ↦ ground (arith, e)
      | inr (inr (r, e)) ↦ elim (Option-cases (in_usr_lib src)) [
        | inl n ↦ ground arith
        | inr (in_lib, l) ↦ ground (arith, collect_sonames-offered flags in_lib r [])
      ]
    ],
    ground arith,
  )

  emplace_each-Fails :
      (names : List Bytes) (work : Work Sets) (b : Bool)
      → Fails work b
      → Fails (emplace_each names work) b
  unfolding emplace_each
  emplace_each-Fails [] work b h = h
  emplace_each-Fails (name ∷ names) work b h = λ sets. emplace_each-Fails names work b h

  -- Whether a file fails does not depend on the sets.
  pub worker-Fails : (src : Bytes) → Fails (worker exec files symdir flags src) (failed src)
  unfolding worker worked
  worker-Fails src =
      elim (Outcome-cases (
        elf_copy_debug_symbols exec (files src).opened (files src).measured (files src).identified
          src symdir flags [] [])) [
            | inl e ↦ subst (λ o. Fails (worked o) (failed src)) (sym e) tt
            | inr (inl e) ↦ subst (λ o. Fails (worked o) (failed src)) (sym e) tt
            | inr (inr (c, e)) ↦
                subst (λ o. Fails (worked o) (failed src)) (sym e)
                  (emplace_each-Fails c.sonames _ (failed src) λ sets. (copy_lem src c e).2)
          ]

  emplace_each-sodeps :
      (x : Bytes) (names : List Bytes) (work : Work Sets) (b : Bool)
      → Adds (λ sets. contains sets.sodeps x) work b
      → Adds (λ sets. contains sets.sodeps x) (emplace_each names work) b
  unfolding emplace_each
  emplace_each-sodeps x [] work b h = h
  emplace_each-sodeps x (name ∷ names) work b h = (
    false,
    (λ sets. sym (or_false (contains sets.sodeps x))),
    λ sets. (b, emplace_each-sodeps x names work b h, refl),
  )

  -- A file adds the libraries that it needs, whatever is in the sets.
  pub worker-sodeps :
      (x : Bytes) (src : Bytes)
      → Adds
          (λ sets. contains sets.sodeps x)
          (worker exec files symdir flags src)
          (contains (needed_by files flags src) x)
  unfolding worker worked contains
  worker-sodeps x src =
      elim (Outcome-cases (
        elf_copy_debug_symbols exec (files src).opened (files src).measured (files src).identified
          src symdir flags [] [])) [
            | inl e ↦
                subst
                  (λ o.
                    Adds (λ sets. contains sets.sodeps x) (worked o)
                      (contains (needed_by files flags src) x))
                  (sym e) tt
            | inr (inl e) ↦
                subst
                  (λ o.
                    Adds (λ sets. contains sets.sodeps x) (worked o)
                      (contains (needed_by files flags src) x))
                  (sym e) tt
            | inr (inr (c, e)) ↦
                let needed = (copy_lem src c e).0 in
                let all : contains c.symbols x ≡ contains (needed_by files flags src) x =
                  ap (λ s. contains s x) needed
                  ∙ contains-insert_all (needed_by files flags src) [] x in
                subst
                  (λ o.
                    Adds (λ sets. contains sets.sodeps x) (worked o)
                      (contains (needed_by files flags src) x))
                  (sym e)
                  (emplace_each-sodeps x c.sonames _ (contains (needed_by files flags src) x) (
                    contains (needed_by files flags src) x,
                    (λ sets.
                        contains-insert_all c.symbols sets.sodeps x
                        ∙ ap (◌||◌ (contains sets.sodeps x)) all),
                    λ sets. (false, refl, sym (or_false (contains (needed_by files flags src) x))),
                  ))
          ]

  emplace_each-sonames :
      (x : Bytes) (names : List Bytes) (work : Work Sets)
      → Adds (λ sets. contains sets.sonames x) work false
      → Adds (λ sets. contains sets.sonames x) (emplace_each names work) (contains names x)
  unfolding emplace_each contains
  emplace_each-sonames x [] work h = h
  emplace_each-sonames x (name ∷ names) work h = (
    equal name x,
    (λ sets. contains-emplace name x sets.sonames),
    λ sets. (contains names x, emplace_each-sonames x names work h, refl),
  )

  -- A file adds the names that it offers, whatever is in the sets.
  pub worker-sonames :
      (x : Bytes) (src : Bytes)
      → Adds
          (λ sets. contains sets.sonames x)
          (worker exec files symdir flags src)
          (contains (offered_by files flags src) x)
  unfolding worker worked contains
  worker-sonames x src =
      elim (Outcome-cases (
        elf_copy_debug_symbols exec (files src).opened (files src).measured (files src).identified
          src symdir flags [] [])) [
            | inl e ↦
                subst
                  (λ o.
                    Adds (λ sets. contains sets.sonames x) (worked o)
                      (contains (offered_by files flags src) x))
                  (sym e) tt
            | inr (inl e) ↦
                subst
                  (λ o.
                    Adds (λ sets. contains sets.sonames x) (worked o)
                      (contains (offered_by files flags src) x))
                  (sym e) tt
            | inr (inr (c, e)) ↦
                let offered = (copy_lem src c e).1 in
                let all : contains c.sonames x ≡ contains (offered_by files flags src) x =
                  ap (λ s. contains s x) offered
                  ∙ contains-insert_all (offered_by files flags src) [] x in
                subst
                  (λ o.
                    Adds (λ sets. contains sets.sonames x) (worked o)
                      (contains (offered_by files flags src) x))
                  (sym e)
                  (subst
                    (λ b.
                      Adds (λ sets. contains sets.sonames x)
                        (emplace_each c.sonames (
                          access (λ sets. record sets { sodeps = insert_all c.symbols sets.sodeps })
                            λ sets. ended c.status))
                        b)
                    all
                    (emplace_each-sonames x c.sonames _ (
                      false,
                      (λ sets. sym (or_false (contains sets.sonames x))),
                      λ sets. (false, refl, refl),
                    )))
          ]
