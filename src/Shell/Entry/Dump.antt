-- ===== src/Shell/Entry/Dump.antt =====
-- `dump_defines` of native/abnativefunctions.cpp, and the options of native/autobuild.c.
use autobuild.Base.{Bool, true, false, ◌==◌, List, [], ◌∷◌, if◌then◌else◌, ◌≡◌, refl, ap, arith}
use autobuild.Shell.Words.{WordList}
use autobuild.Shell.Entry.{Opt, Native, goes_on, dump_defines, parse_options, autobuild_builtin}

module _ {ℓ} {S : Type ℓ} (native : Native S) where
  -- The shell after the options `-q` and `-a`; `-p` leaves it as it is.
  unfoldable pub set_up : List Opt → S → S
  set_up [] s = s
  set_up ((opt, arg) ∷ opts) s = set_up opts (
      if opt == b'q'
      then native.disable_logger s
      else if opt == b'a'
      then native.set_custom_arch arg s
      else s)

  -- No option but these three, and one of them is `-p`, or some was before.
  unfoldable pub dumps_after : Bool → List Opt → Bool
  dumps_after dumps [] = dumps
  dumps_after dumps ((opt, arg) ∷ opts) =
      let given = dumps_after true opts in
      let rest = dumps_after dumps opts in
      if opt == b'p'
      then given
      else if opt == b'q'
      then rest
      else if opt == b'a'
      then rest
      else false

  parse_options-dumps :
      (opts : List Opt) (dumps : Bool) (s : S)
      → dumps_after dumps opts ≡ true
      → parse_options native dumps opts s ≡ goes_on true (set_up opts s)
  unfolding parse_options set_up dumps_after
  parse_options-dumps [] dumps s h = ap (λ b. goes_on b s) h
  parse_options-dumps ((opt, arg) ∷ opts) dumps s h = ground (
    arith,
    h,
    parse_options-dumps opts true s,
    parse_options-dumps opts dumps (native.disable_logger s),
    parse_options-dumps opts dumps (native.set_custom_arch arg s),
  )

  -- With the option `-p`, wherever it stands among `-q` and `-a`, whatever the words are, the
  -- variables are dumped by the shell that has the logger and the architecture of the others.
  pub autobuild_builtin-dump_defines :
      (opts : List Opt) (words : WordList) (s : S)
      → dumps_after false opts ≡ true
      → autobuild_builtin native opts words s ≡ dump_defines native (set_up opts s)
  unfolding autobuild_builtin
  autobuild_builtin-dump_defines opts words s h =
      rw (autobuild_builtin, parse_options-dumps opts false s h) refl
