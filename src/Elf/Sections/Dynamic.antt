-- ===== src/Elf/Sections/Dynamic.antt =====
-- The libraries that a file needs, and its own soname.
use autobuild.Base.{
  ℕ, ◌%◌, ◌^◌, List, [], ◌∷◌, ◌++◌, ◌≡◌, refl, sym, ap, inl, inr, arith, ◌==◌, if◌then◌else◌,
  Option, none, some, Option-cases, Bool-cases, ◌>>=◌, append-nil, append_assoc, Bytes,
}
use autobuild.Elf.Sections.{
  Shdr, Dyn, ElfFile, sht_dynamic, dt_needed, needed_in, needed_of, get_elf_needed,
  get_elf_dynstrtab, soname_index, get_elf_soname,
}

-- The string-table indices of the entries `DT_NEEDED`, in order, over all dynamic sections. Only
-- their lowest 32 bits are looked at.
abbrev pub needed_indices_in : List Dyn → List ℕ
needed_indices_in [] = []
needed_indices_in (d ∷ ds) =
    if d.d_tag == dt_needed then (d.d_val % 2 ^ 32) ∷ needed_indices_in ds else needed_indices_in ds

abbrev pub needed_indices : ElfFile → List Shdr → List ℕ
needed_indices elf [] = []
needed_indices elf (s ∷ ss) =
    if s.sh_type == sht_dynamic
    then needed_indices_in (elf.dynamic_at s.sh_offset) ++ needed_indices elf ss
    else needed_indices elf ss

-- The texts at all the indices, if none is missing.
abbrev pub texts : (ℕ → Option Bytes) → List ℕ → Option (List Bytes)
texts f [] = some []
texts f (i ∷ is) = f i >>= λ t. texts f is >>= λ ts. some (t ∷ ts)

-- The texts put behind those collected so far.
abbrev after : List Bytes → Option (List Bytes) → Option (List Bytes)
after xs none = none
after xs (some ys) = some (xs ++ ys)

after-after :
    (xs : List Bytes) (y : Bytes) (o : Option (List Bytes))
    → after (xs ++ y ∷ []) o ≡ after xs (o >>= λ ys. some (y ∷ ys))
after-after xs y none = refl
after-after xs y (some ys) = ap some (append_assoc xs (y ∷ []) ys)

after_nil : (o : Option (List Bytes)) → after [] o ≡ o
after_nil none = refl
after_nil (some ys) = refl

needed_in-texts :
    (elf : ElfFile) (tab : ℕ) (ds : List Dyn) (acc : List Bytes)
    → needed_in elf tab ds acc ≡ after acc (texts (elf.strptr tab) (needed_indices_in ds))
unfolding needed_in
needed_in-texts elf tab [] acc = ap some (sym (append-nil acc))
needed_in-texts elf tab (d ∷ ds) acc = elim (Option-cases (elf.strptr tab (d.d_val % 2 ^ 32))) [
  | inl e ↦ ground (arith, needed_in-texts elf tab ds acc)
  | inr (t, e) ↦ ground (
    arith,
    needed_in-texts elf tab ds acc,
    needed_in-texts elf tab ds (acc ++ t ∷ []),
    after-after acc t (texts (elf.strptr tab) (needed_indices_in ds)),
  )
]

after-append :
    (f : ℕ → Option Bytes) (is js : List ℕ) (acc : List Bytes)
    → after acc (texts f (is ++ js)) ≡ (after acc (texts f is) >>= λ acc'. after acc' (texts f js))
after-append f [] js acc = rw append-nil
after-append f (i ∷ is) js acc = elim (Option-cases (f i)) [
  | inl e ↦ ground arith
  | inr (t, e) ↦ ground (
    arith,
    after-append f is js (acc ++ t ∷ []),
    after-after acc t (texts f (is ++ js)),
    after-after acc t (texts f is),
  )
]

needed_of-texts :
    (elf : ElfFile) (tab : ℕ) (ss : List Shdr) (acc : List Bytes)
    → needed_of elf tab ss acc ≡ after acc (texts (elf.strptr tab) (needed_indices elf ss))
unfolding needed_of
needed_of-texts elf tab [] acc = ap some (sym (append-nil acc))
needed_of-texts elf tab (s ∷ ss) acc = elim (Bool-cases (s.sh_type == sht_dynamic)) [
  | inl e ↦
      let own = needed_indices_in (elf.dynamic_at s.sh_offset) in
      elim (Option-cases (texts (elf.strptr tab) own)) [
        | inl missing ↦ ground (
          arith,
          needed_in-texts elf tab (elf.dynamic_at s.sh_offset) acc,
          after-append (elf.strptr tab) own (needed_indices elf ss) acc,
        )
        | inr (ts, found) ↦ ground (
          arith,
          needed_in-texts elf tab (elf.dynamic_at s.sh_offset) acc,
          after-append (elf.strptr tab) own (needed_indices elf ss) acc,
          needed_of-texts elf tab ss (acc ++ ts),
        )
      ]
  | inr e ↦ ground (arith, needed_of-texts elf tab ss acc)
]

-- The libraries are the texts at the indices of the `DT_NEEDED` entries, taken modulo 2^32, in order,
-- over all dynamic sections; one missing text is a fault, and a file without `.dynstr` needs none.
pub get_elf_needed-texts :
    (elf : ElfFile) (dynstrtab : ℕ)
    → get_elf_needed elf dynstrtab ≡ (
        if dynstrtab == 0
        then some []
        else texts (elf.strptr dynstrtab) (needed_indices elf elf.sections))
unfolding get_elf_needed
get_elf_needed-texts elf dynstrtab = ground (
  arith,
  needed_of-texts elf dynstrtab elf.sections [],
  after_nil (texts (elf.strptr dynstrtab) (needed_indices elf elf.sections)),
)

-- A file with a soname but without `.dynstr` is a fault, since a null pointer is made a string;
-- the walk for its libraries, which tests for this, returns none of them.
pub get_elf_soname_without_dynstr :
    (elf : ElfFile) (i : ℕ)
    → get_elf_dynstrtab elf ≡ 0
    → elf.strptr 0 i ≡ none
    → soname_index elf elf.sections ≡ some i
    → (get_elf_soname elf (get_elf_dynstrtab elf) ≡ none)
      × (get_elf_needed elf (get_elf_dynstrtab elf) ≡ some [])
unfolding get_elf_soname get_elf_needed
get_elf_soname_without_dynstr elf i z n h = rw z (rw (h, get_elf_soname) n, refl)
