-- ===== src/Shell/Modifiers/Names.antt =====
-- What the names that `ab_parse_set_modifiers` of native/abnativefunctions.cpp reads look like.
use autobuild.Base.{
  subst, some-injective, bind-eq-some, ℕ, Bool, true, false, not, ◌&&◌, List, [], ◌∷◌, ◌==◌, ◌≡◌,
  refl, arith, some, Bytes, all, all-append,
}
use autobuild.Shell.Modifiers.{
  Modifier, Scan, push_modifier, is_empty, scan_step, scan_loop, last_modifier, start,
  parse_modifiers,
}

-- A character of a name.
unfoldable pub is_plain : ℕ → Bool
is_plain c = not (c == b'+') && (not (c == b'-') && not (c == b','))

-- A name that can be written: it is not empty, and all its characters are plain.
unfoldable pub is_name : Modifier → Bool
is_name modifier = not (is_empty modifier.name) && all is_plain modifier.name

-- Every name that is read is one, what is read of the next is plain, and none of it is read
-- before a sign.
pub record IsSound (scan : Scan) : Type 0 where
  pub names : all is_name scan.modifiers ≡ true
  pub plain : all is_plain scan.modifier_name ≡ true
  pub unsigned : scan.state ≡ 0 → is_empty scan.modifier_name ≡ true

all-push_modifier :
    (scan : Scan) (state : ℕ)
    → all is_name scan.modifiers ≡ true
    → all is_plain scan.modifier_name ≡ true
    → is_empty scan.modifier_name ≡ false
    → all is_name (push_modifier scan state).modifiers ≡ true
unfolding push_modifier is_name
all-push_modifier scan state names plain nonempty =
    all-append is_name scan.modifiers _ names (rw (nonempty, plain) refl)

scan_step-names :
    (scan next : Scan) (c : ℕ)
    → IsSound scan
    → scan_step scan c ≡ some next
    → all is_name next.modifiers ≡ true
unfolding scan_step
scan_step-names scan next c sound h =
    let pushed = all-push_modifier scan 0 sound.names sound.plain in
    ground (arith, h, pushed, sound.names)

scan_step-plain_name :
    (scan next : Scan) (c : ℕ)
    → IsSound scan
    → scan_step scan c ≡ some next
    → all is_plain next.modifier_name ≡ true
unfolding scan_step push_modifier is_plain
scan_step-plain_name scan next c sound h =
    let longer = all-append is_plain scan.modifier_name (c ∷ []) sound.plain in
    ground (arith, h, longer, sound.plain)

scan_step-unsigned :
    (scan next : Scan) (c : ℕ)
    → scan_step scan c ≡ some next
    → next.state ≡ 0
    → is_empty next.modifier_name ≡ true
unfolding scan_step push_modifier
scan_step-unsigned scan next c h zero = ground (arith, h, zero)

scan_step-IsSound :
    (scan next : Scan) (c : ℕ) → IsSound scan → scan_step scan c ≡ some next → IsSound next
scan_step-IsSound scan next c sound h = record {
  names = scan_step-names scan next c sound h;
  plain = scan_step-plain_name scan next c sound h;
  unsigned = scan_step-unsigned scan next c h;
}

scan_loop-IsSound :
    (cs : Bytes) (scan last : Scan) → IsSound scan → scan_loop scan cs ≡ some last → IsSound last
unfolding scan_loop
scan_loop-IsSound [] scan last sound h = subst IsSound (some-injective scan last h) sound
scan_loop-IsSound (c ∷ cs) scan last sound h =
    let (next, step, rest) = bind-eq-some (scan_step scan c) (λ next. scan_loop next cs) h in
    scan_loop-IsSound cs next last (scan_step-IsSound scan next c sound step) rest

all-last_modifier : (scan : Scan) → IsSound scan → all is_name (last_modifier scan) ≡ true
unfolding last_modifier
all-last_modifier scan sound =
    let pushed = all-push_modifier scan scan.state sound.names sound.plain in
    ground (arith, pushed, sound.names)

-- Each name that is read is not empty, and has neither a sign nor a comma in it.
pub parse_modifiers-names :
    (text : Bytes) (modifiers : List Modifier)
    → parse_modifiers text ≡ some modifiers
    → all is_name modifiers ≡ true
unfolding parse_modifiers
parse_modifiers-names text modifiers h =
    let (scan, read, same) = bind-eq-some (scan_loop start text) _ h in
    let sound =
      scan_loop-IsSound text start scan
        (record { names = refl; plain = refl; unsigned = λ zero. refl }) read in
    subst (λ ms. all is_name ms ≡ true) (some-injective (last_modifier scan) modifiers same)
      (all-last_modifier scan sound)
