-- ===== src/Shell/Entry.antt =====
-- native/autobuild.c, `autobuild_builtin`, and what it calls of native/abnativefunctions.cpp:
-- `start_proc_00` and `dump_defines`; and `ab_load_strict` of the same file.
pub mod Dump
use autobuild.Base.{
  ℕ, Bool, true, false, ◌==◌, List, [], ◌∷◌, ◌++◌, if◌then◌else◌, Option, none, some, Bytes, codes,
}
use autobuild.Shell.Words.{WordList, get_argv1}
use autobuild.Shell.Directory.{autobuild_load_all_from_directory}

-- An option that `internal_getopt` of bash gives, with its argument.
abbrev pub Opt : Type 0
Opt = ℕ × Bytes

-- What the loop over the options comes to: an early return, or an action and the shell.
pub data Parsed {ℓ} (S : Type ℓ) : Type ℓ where
  leaves : ℕ → S → Parsed S
  goes_on : Bool → S → Parsed S

-- What is used of bash and of the other files: `get_self_path` is the text of a variable,
-- `disable_logger` and `set_custom_arch` change the shell, `load` is `autobuild_load_file(…, false)`
-- and `validate` is `autobuild_load_file(…, true)`, `directory` lists what is in a directory, and
-- `dump_variables` is `ab_dump_variables`. `usage` is `EX_USAGE` of bash.
pub record Native {ℓ} (S : Type ℓ) : Type ℓ where
  pub self_path : S → Bytes
  pub disable_logger : S → S
  pub set_custom_arch : Bytes → S → S
  pub switch_strict_mode : Bool → S → S
  pub load : Bytes → S → S × ℕ
  pub validate : Bytes → S → S × ℕ
  pub directory : Bytes → List (Bytes × Bool)
  pub exported_vars : Bytes → List Bytes
  pub writes_file : S → Bool
  pub dump_variables : List Bytes → Bool → S → S × ℕ
  pub usage : ℕ

module _ {ℓ} {S : Type ℓ} (native : Native S) where
  unfoldable pub start_proc_00 : S → S × ℕ
  start_proc_00 s =
      let strict = native.switch_strict_mode true s in
      autobuild_load_all_from_directory native.load
        (native.directory (native.self_path strict ++ codes "/proc")) strict

  abbrev pub precond_scripts : List Bytes
  precond_scripts = codes "00-python-defines.sh" ∷ codes "01-core-defines.sh" ∷ []

  -- The loop over the scripts, and what stands behind it.
  unfoldable pub dump_loop : List Bytes → List Bytes → S → S × ℕ
  dump_loop names [] s = native.dump_variables names (native.writes_file s) s
  dump_loop names (script ∷ scripts) s =
      let (t, ret) = native.load (native.self_path s ++ (codes "/proc/" ++ script)) s in
      let rest = dump_loop names scripts t in if ret == 0 then rest else (t, ret)

  unfoldable pub dump_defines : S → S × ℕ
  dump_defines s = dump_loop (native.exported_vars (native.self_path s)) precond_scripts s

  -- The loop over the options; the Boolean is whether the action is `p`. Help, and an option that is
  -- not known, end the builtin with the usage.
  unfoldable pub parse_options : Bool → List Opt → S → Parsed S
  parse_options dumps [] s = goes_on dumps s
  parse_options dumps ((opt, arg) ∷ opts) s =
      let dumping = parse_options true opts s in
      let silent = parse_options dumps opts (native.disable_logger s) in
      let custom = parse_options dumps opts (native.set_custom_arch arg s) in
      if opt == b'E'
      then leaves 0 s
      else if opt == b'p'
      then dumping
      else if opt == b'q'
      then silent
      else if opt == b'a'
      then custom
      else leaves native.usage s

  unfoldable pub autobuild_builtin : List Opt → WordList → S → S × ℕ
  autobuild_builtin opts words s = elim (parse_options false opts s) [
    | leaves status t ↦ (t, status)
    | goes_on dumps t ↦
        if dumps
        then dump_defines t
        else elim words [ [] ↦ start_proc_00 t | word ∷ others ↦ (t, 0) ]
  ]

  -- A file is loaded if it could be parsed.
  unfoldable pub ab_load_strict : WordList → S → S × ℕ
  ab_load_strict list s = elim (get_argv1 list) [
    | none ↦ (s, 1)
    | some file ↦
        let (t, result) = native.validate file s in
        if result == 0 then native.load file t else (t, result)
  ]
