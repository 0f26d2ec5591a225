-- ===== src/Logger/Snippet/Window.antt =====
-- Which lines `get_snippet` of native/logger.cpp shows.
use autobuild.Base.{
  ltb_iff, ltb-false, Bool-cases, inl, inr, ℕ, suc, zero, ◌+◌, ◌-◌, ◌^◌, ◌<◌, ◌≤◌, ◌&&◌, List, [],
  ◌∷◌, ◌++◌, ltb, if◌then◌else◌, some, Bytes, take, drop, length, ◌≡◌, refl, ap, arith, ◌∙◌,
}
use autobuild.Logger.Snippet.{plus_size, minus_size, snippet_line, snippet_loop, get_snippet}

-- Lines with their numbers.
unfoldable pub show_from : ℕ → ℕ → List Bytes → Bytes
show_from line num [] = []
show_from line num (line_str ∷ lines) =
    snippet_line line num line_str ++ show_from line (suc num) lines

plus_size_small : (a b : ℕ) → a + b < 2 ^ 64 → plus_size a b ≡ a + b
plus_size_small a b h = omega arith

minus_size_small : (a b : ℕ) → b ≤ a → a < 2 ^ 64 → minus_size a b ≡ a - b
minus_size_small a b h k = omega arith

minus_size_wraps : (a : ℕ) → a < 2 → 2 ^ 64 - 2 ≤ minus_size a 2
minus_size_wraps a h = omega arith

-- A line is shown if its number is near.
snippet_loop-step :
    (line line_num : ℕ) (line_str : Bytes) (lines : List Bytes)
    → 2 ≤ line
    → line + 2 < 2 ^ 64
    → line_num + 1 < 2 ^ 64
    → snippet_loop line line_num (line_str ∷ lines) ≡ (
        if ltb (line_num + 1) (line + 2) && ltb (line - 2) (line_num + 1)
        then snippet_line line (line_num + 1) line_str ++ snippet_loop line (line_num + 1) lines
        else snippet_loop line (line_num + 1) lines)
unfolding snippet_loop
snippet_loop-step line line_num line_str lines h k l =
    rw
      (
        plus_size_small line_num 1 l,
        plus_size_small line 2 k,
        minus_size_small line 2 h (omega (arith, k)),
      )
      refl

-- From the first line that is shown on, `shown` lines are.
snippet_loop-near :
    (lines : List Bytes) (shown line line_num : ℕ)
    → 2 ≤ line
    → line + 2 < 2 ^ 64
    → line_num + length lines < 2 ^ 64
    → line ≤ line_num + 2
    → shown ≡ line + 1 - line_num
    → snippet_loop line line_num lines ≡ show_from line (line_num + 1) (take shown lines)
unfolding snippet_loop show_from
snippet_loop-near [] zero line line_num h k l near count = refl
snippet_loop-near [] (suc shown) line line_num h k l near count = refl
snippet_loop-near (line_str ∷ lines) zero line line_num h k l near count =
    let rest =
      snippet_loop-near lines zero line (line_num + 1) h k (omega arith) (omega arith)
        (omega (arith, count)) in
    snippet_loop-step line line_num line_str lines h k (omega arith) ∙ ground (arith, rest)
snippet_loop-near (line_str ∷ lines) (suc shown) line line_num h k l near count =
    let rest =
      snippet_loop-near lines shown line (line_num + 1) h k (omega arith) (omega arith)
        (omega (arith, count)) in
    snippet_loop-step line line_num line_str lines h k (omega arith) ∙ ground (arith, rest)

-- Up to the first line that is shown, `skipped` lines are not.
snippet_loop-far :
    (lines : List Bytes) (skipped line line_num : ℕ)
    → 2 ≤ line
    → line + 2 < 2 ^ 64
    → line_num + length lines < 2 ^ 64
    → line_num + skipped + 2 ≡ line
    → snippet_loop line line_num lines ≡ show_from line (line - 1) (take 3 (drop skipped lines))
unfolding snippet_loop show_from
snippet_loop-far [] zero line line_num h k l far = refl
snippet_loop-far [] (suc skipped) line line_num h k l far = refl
snippet_loop-far (line_str ∷ lines) zero line line_num h k l far =
    let near : 3 ≡ line + 1 - line_num = omega (arith, far) in
    let first : line_num + 1 ≡ line - 1 = omega (arith, far) in
    snippet_loop-near (line_str ∷ lines) 3 line line_num h k l (omega (arith, far)) near
    ∙ ap (λ num. show_from line num (take 3 (line_str ∷ lines))) first
snippet_loop-far (line_str ∷ lines) (suc skipped) line line_num h k l far =
    let rest =
      snippet_loop-far lines skipped line (line_num + 1) h k (omega arith) (omega (arith, far)) in
    snippet_loop-step line line_num line_str lines h k (omega arith) ∙ ground (arith, rest, far)

snippet_loop-none :
    (lines : List Bytes) (line line_num : ℕ)
    → line < 2
    → line_num + length lines + 2 < 2 ^ 64
    → snippet_loop line line_num lines ≡ []
unfolding snippet_loop
snippet_loop-none [] line line_num h l = refl
snippet_loop-none (line_str ∷ lines) line line_num h l =
    let next = plus_size_small line_num 1 (omega (arith, l)) in
    let wraps = minus_size_wraps line h in
    rw next
      (ground (arith, wraps, l, snippet_loop-none lines line (line_num + 1) h (omega (arith, l))))

-- If the file has not nearly as many lines as a machine word can count, the snippet has the line,
-- the one before it and the one behind it, as far as they are there; it is empty for the first
-- line, and for the number 0.
pub get_snippet-window :
    (lines : List Bytes) (line : ℕ)
    → line + 2 < 2 ^ 64
    → length lines + 2 < 2 ^ 64
    → get_snippet (some lines) line
      ≡ (if ltb line 2 then [] else show_from line (line - 1) (take 3 (drop (line - 2) lines)))
unfolding get_snippet
get_snippet-window lines line h k = elim (Bool-cases (ltb line 2)) [
  | inl first ↦
      rw first (snippet_loop-none lines line 0 ((ltb_iff line 2).0 first) (omega (arith, k)))
  | inr later ↦
      let high = ltb-false line 2 later in
      rw later
        (snippet_loop-far lines (line - 2) line 0 high h (omega (arith, k)) (omega (arith, high)))
]
