-- ===== src/Elf/Arm/Progress.antt =====
-- Every round of the inner loop moves forward, so the loop ends.
use Prim.Native.Nat.{bit_and, bit_or}
use autobuild.Base.{
  ℕ, zero, suc, ◌+◌, ◌-◌, ◌*◌, ◌≤◌, ◌<◌, Bool, true, false, ◌≡◌, ◌≢◌, ◌⊎◌, inl, inr, sym, ◌∙◌,
  arith, ltb, ◌==◌, if◌then◌else◌, Bool-cases, some, Option-cases, Outcome-cases, ◌^◌, ◌%◌, done,
  fault, spin, Bytes, get_elem?, drop, find_char,
}
use autobuild.Elf.Arch.{AoscArch}
use autobuild.Elf.Arm.{
  Scan, loop_end, attribute, shift_int, stops, goes_on, attribute_round, attributes_loop, uleb_loop,
  decode_uleb128, is_null_terminated_string,
}

-- The architectures that an ARM file can be reported as.
abbrev pub arm_arch : AoscArch → Bool
arm_arch AoscArch.none = true
arm_arch AoscArch.armv4 = true
arm_arch AoscArch.armv6hf = true
arm_arch AoscArch.armv7hf = true
arm_arch _ = false

abbrev signed : ℕ → ℕ
signed w = if ltb w (2 ^ 31) then w else w + (2 ^ 64 - 2 ^ 32)

shift_int-cases : (x k : ℕ) → (shift_int x k ≡ fault) ⊎ ((w : ℕ) × (shift_int x k ≡ done w))
unfolding shift_int
shift_int-cases x k = elim (Bool-cases (ltb k 32)) [
  | inl e ↦ inr (signed ((x * 2 ^ k) % 2 ^ 32), ground arith)
  | inr e ↦ inl (ground arith)
]

-- A round of the loop faults, ends it, or goes on one byte further.
uleb_loop-cases :
    (n : ℕ) (start : Bytes) (pos shift ret : ℕ)
    → (uleb_loop (suc n) start pos shift ret ≡ fault)
      ⊎ ((v : ℕ) × (uleb_loop (suc n) start pos shift ret ≡ done (v, pos + 1)))
      ⊎ ((ret' : ℕ) × (uleb_loop (suc n) start pos shift ret
            ≡ uleb_loop n start (pos + 1) ((shift + 7) % 256) ret'))
unfolding uleb_loop
uleb_loop-cases n start pos shift ret = elim (Option-cases (get_elem? start pos)) [
  | inl e ↦ inl (rw e)
  | inr (byte, e) ↦ elim (shift_int-cases (bit_and byte 0x7f) shift) [
    | inl f ↦ inl (rw (e, f))
    | inr (bits, f) ↦ elim (Option-cases (get_elem? start (pos + 1))) [
      | inl g ↦ inl (rw (e, f, g))
      | inr (next, g) ↦ elim (Bool-cases (bit_and next 0x80 == 0)) [
        | inl h ↦ inr (inl (bit_or ret bits, ground arith))
        | inr h ↦ inr (inr (bit_or ret bits, ground arith))
      ]
    ]
  ]
]

uleb_loop-lt :
    (n : ℕ) (start : Bytes) (pos shift ret v p : ℕ)
    → uleb_loop n start pos shift ret ≡ done (v, p)
    → (pos ≤ p) × (0 < n → pos < p)
uleb_loop-lt zero start pos shift ret v p e = unfold uleb_loop in ground arith
uleb_loop-lt (suc n) start pos shift ret v p e = elim (uleb_loop-cases n start pos shift ret) [
  | inl f ↦ ground arith
  | inr (inl (w, f)) ↦ ground arith
  | inr (inr (r, f)) ↦
      ground (arith, uleb_loop-lt n start (pos + 1) ((shift + 7) % 256) r v p (sym f ∙ e))
]

uleb_loop-ne-spin :
    (n : ℕ) (start : Bytes) (pos shift ret : ℕ) → uleb_loop n start pos shift ret ≢ spin
uleb_loop-ne-spin zero start pos shift ret e = unfold uleb_loop in ground arith
uleb_loop-ne-spin (suc n) start pos shift ret e = elim (uleb_loop-cases n start pos shift ret) [
  | inl f ↦ ground arith
  | inr (inl (w, f)) ↦ ground arith
  | inr (inr (r, f)) ↦ uleb_loop-ne-spin n start (pos + 1) ((shift + 7) % 256) r (sym f ∙ e)
]

decode-lt :
    (start : Bytes) (pos_max pos v p : ℕ)
    → decode_uleb128 start pos_max pos ≡ done (v, p)
    → (pos ≤ p) × (pos < pos_max → pos < p)
unfolding decode_uleb128
decode-lt start pos_max pos v p e = ground (arith, uleb_loop-lt (pos_max - pos) start pos 0 0 v p e)

attribute-pos : (tag value : ℕ) (s t : Scan) → attribute tag value s ≡ some t → t.pos ≡ s.pos
unfolding attribute
attribute-pos tag value s t e = ground arith

attribute-arm :
    (tag value : ℕ) (s t : Scan)
    → arm_arch s.ret ≡ true
    → attribute tag value s ≡ some t
    → arm_arch t.ret ≡ true
unfolding attribute
attribute-arm tag value s t h e = ground arith

-- A round that goes on has moved forward, and keeps to the ARM architectures.
attribute_round-goes_on :
    (start : Bytes) (end : ℕ) (s t : Scan)
    → s.pos < end
    → arm_arch s.ret ≡ true
    → attribute_round start end s ≡ done (goes_on t)
    → (s.pos < t.pos) × (arm_arch t.ret ≡ true)
unfolding attribute_round
attribute_round-goes_on start end s t l a e =
    elim (Outcome-cases (decode_uleb128 start end s.pos)) [
      | inl f ↦ ground arith
      | inr (inl f) ↦ ground arith
      | inr (inr (d, f)) ↦
          let first = decode-lt start end s.pos d.0 d.1 f in
          elim (Bool-cases (is_null_terminated_string d.0)) [
            | inl text ↦ elim (Option-cases (find_char 0 (drop d.1 start))) [
              | inl g ↦ ground arith
              | inr (k, g) ↦ ground (arith, first)
            ]
            | inr number ↦ elim (Outcome-cases (decode_uleb128 start end d.1)) [
              | inl g ↦ ground arith
              | inr (inl g) ↦ ground arith
              | inr (inr (v, g)) ↦ ground (
                arith,
                first,
                decode-lt start end d.1 v.0 v.1 g,
                attribute-pos d.0 v.0 (record s { pos = v.1 }) t,
                attribute-arm d.0 v.0 (record s { pos = v.1 }) t,
              )
            ]
          ]
    ]

decode-ne-spin : (start : Bytes) (pos_max pos : ℕ) → decode_uleb128 start pos_max pos ≢ spin
unfolding decode_uleb128
decode-ne-spin start pos_max pos = uleb_loop-ne-spin (pos_max - pos) start pos 0 0

attribute_round-ne-spin : (start : Bytes) (end : ℕ) (s : Scan) → attribute_round start end s ≢ spin
unfolding attribute_round
attribute_round-ne-spin start end s e = elim (Outcome-cases (decode_uleb128 start end s.pos)) [
  | inl f ↦ ground arith
  | inr (inl f) ↦ decode-ne-spin start end s.pos f
  | inr (inr (d, f)) ↦ elim (Outcome-cases (decode_uleb128 start end d.1)) [
    | inl g ↦ ground arith
    | inr (inl g) ↦ decode-ne-spin start end d.1 g
    | inr (inr (v, g)) ↦ ground arith
  ]
]

-- The inner loop ends within the rounds that it is given, and what it ends with is ARM.
pub record Ends (start : Bytes) (end : ℕ) (f : ℕ) (s : Scan) : Type 0 where
  pub never_spins : attributes_loop f start end s ≢ spin
  pub keeps_arm :
      (t : Scan) → attributes_loop f start end s ≡ done (loop_end t) → arm_arch t.ret ≡ true

pub attributes_loop-Ends :
    (f : ℕ) (start : Bytes) (end : ℕ) (s : Scan)
    → 0 < f
    → end < f + s.pos
    → arm_arch s.ret ≡ true
    → Ends start end f s
unfolding attributes_loop
attributes_loop-Ends zero start end s p h a = absurd (omega arith)
attributes_loop-Ends (suc f) start end s p h a = elim (Bool-cases (ltb s.pos end)) [
  | inr e ↦ record { never_spins = ground arith; keeps_arm = λ t x. ground arith }
  | inl e ↦ elim (Outcome-cases (attribute_round start end s)) [
    | inl g ↦ record { never_spins = ground arith; keeps_arm = λ t x. ground arith }
    | inr (inl g) ↦ absurd (attribute_round-ne-spin start end s g)
    | inr (inr (stops, g)) ↦ record { never_spins = ground arith; keeps_arm = λ t x. ground arith }
    | inr (inr (goes_on s', g)) ↦
        let (moved, arm) = attribute_round-goes_on start end s s' (ground arith) a g in
        let rest = attributes_loop-Ends f start end s' (ground arith) (omega arith) arm in
        record {
          never_spins = λ x. rest.never_spins (ground arith);
          keeps_arm = λ t x. rest.keeps_arm t (ground arith);
        }
  ]
]
