-- ===== src/Elf/Paths/UsrLib.antt =====
-- Which files count as libraries of the system.
use autobuild.Base.{
  ℕ, zero, suc, ◌-◌, ◌≤◌, true, false, [], ◌∷◌, ◌++◌, ◌≡◌, refl, ap, ◌∙◌, arith, none, some, Bytes,
  codes, equal, length, take, drop, substr, length-append, length-drop, take-append,
}
use autobuild.Elf.Paths.{has_slash, base_name, in_usr_lib}

has_slash-append : (dir name : Bytes) → has_slash (dir ++ (b'/' ∷ name)) ≡ true
unfolding has_slash
has_slash-append [] name = refl
has_slash-append (c ∷ dir) name = ground (arith, has_slash-append dir name)

base_name_free : (name : Bytes) → has_slash name ≡ false → base_name name ≡ name
unfolding base_name has_slash
base_name_free [] h = refl
base_name_free (c ∷ cs) h = ground arith

base_name-append :
    (dir name : Bytes) → has_slash name ≡ false → base_name (dir ++ (b'/' ∷ name)) ≡ name
unfolding base_name
base_name-append [] name h = ground arith
base_name-append (c ∷ dir) name h =
    ground (arith, has_slash-append dir name, base_name-append dir name h)

drop-append-le : (n : ℕ) (xs ys : Bytes) → n ≤ length xs → drop n (xs ++ ys) ≡ drop n xs ++ ys
drop-append-le zero xs ys h = refl
drop-append-le (suc n) [] ys h = absurd (omega arith)
drop-append-le (suc n) (x ∷ xs) ys h = drop-append-le n xs ys (omega arith)

take_front : (n : ℕ) (xs ys : Bytes) → length xs ≡ n → take n (xs ++ ys) ≡ xs
take_front n xs ys h = rw (← h) (take-append xs ys)

substr_end :
    (dir ys : Bytes)
    → 8 ≤ length dir
    → substr (dir ++ ys) (length dir - 8) 8 ≡ drop (length dir - 8) dir
substr_end dir ys l =
    ap (take 8) (drop-append-le (length dir - 8) dir ys (omega arith))
    ∙ take_front 8 (drop (length dir - 8) dir) ys (omega (arith, length-drop (length dir - 8) dir))

-- For a name without a slash in a directory of eight characters or more, the test is whether the
-- last eight characters of the directory are `/usr/lib`.
pub in_usr_lib_lem :
    (dir name : Bytes)
    → has_slash name ≡ false
    → 8 ≤ length dir
    → in_usr_lib (dir ++ (b'/' ∷ name))
      ≡ some (equal (drop (length dir - 8) dir) (codes "/usr/lib"))
unfolding in_usr_lib
in_usr_lib_lem dir name h l = ground (
  arith,
  base_name-append dir name h,
  length-append dir (b'/' ∷ name),
  substr_end dir (b'/' ∷ name) l,
)

-- In a directory of seven characters the text is read before its start.
pub in_usr_lib_out_of_bounds :
    (dir name : Bytes)
    → has_slash name ≡ false
    → length dir ≡ 7
    → in_usr_lib (dir ++ (b'/' ∷ name)) ≡ none
unfolding in_usr_lib
in_usr_lib_out_of_bounds dir name h l =
    ground (arith, base_name-append dir name h, length-append dir (b'/' ∷ name))
