-- ===== src/Serialize/Path.antt =====
-- Queries of `autobuild_deserialize_variable` in native/abserialize.cpp that are written out from
-- a path.
use autobuild.Base.{
  ltb_iff, digits-cons, digits-snoc, get_elem?-append, all-append, all_mono, ℕ, zero, suc, ◌+◌, ◌-◌,
  ◌%◌, ◌^◌, ◌<◌, Bool, true, false, not, ◌&&◌, List, [], ◌∷◌, ◌++◌, ◌==◌, ltb, Option, Bytes,
  substr, length, take, all, strtol, strtol-decimal, ends, pos, decimal, is_digit, all-digits, ◌≡◌,
  refl, sym, ap, ◌∙◌, arith, append-nil, append_assoc, length-append, drop-append, take-append,
  and-eq-true,
}
use autobuild.Serialize.{
  JsonLibrary, Answer, found, failed, Query, unescaped, unquote, is_quoted, caught, look_up,
  looked_up, query_step, query_loop, run_query, and_then,
}

-- A step into an object or into an array.
pub data Step : Type 0 where
  key : Bytes → Step
  index : ℕ → Step

-- A character that neither opens nor closes a step.
unfoldable pub is_inner : ℕ → Bool
is_inner c = not (c == b'[') && not (c == b']')

-- Keys without brackets that are shorter than a `size_t` can say, and indices of `long`.
unfoldable pub is_writable : Step → Bool
is_writable (key k) = all is_inner k && ltb (length k + 2) (2 ^ 64)
is_writable (index n) = ltb n (2 ^ 63)

-- What stands between the brackets, up to its last character.
unfoldable pub body : Step → Bytes
body (key k) = b'\'' ∷ (k ++ b'\'' ∷ [])
body (index n) = decimal n

unfoldable pub print_path : List Step → Bytes
print_path [] = []
print_path (step ∷ path) = b'[' ∷ (body step ++ b']' ∷ print_path path)

module _ {D : Type 0} (json : JsonLibrary D) where
  abbrev follow : D → Step → Option D
  follow data_value (key k) = json.at_key data_value k
  follow data_value (index n) = json.at_index data_value (pos n)

  -- One step after the other; a step that cannot be taken is left out, or ends the walk.
  unfoldable pub walk : Bool → D → List Step → Answer D
  walk allow_failure data_value [] = found data_value
  walk allow_failure data_value (step ∷ path) =
      and_then (caught allow_failure data_value (follow data_value step))
        λ next. walk allow_failure next path

decimal_unquoted : (n : ℕ) → is_quoted (decimal n) ≡ false
unfolding decimal is_digit
decimal_unquoted n =
    let (c, cs, same) = digits-cons n n in
    let digit =
      (and-eq-true (is_digit c) (all is_digit cs)
        (ap (all is_digit) (sym same) ∙ all-digits n n)).0 in
    ap is_quoted same ∙ ground (arith, digit)

strtol-decimal_all : (n : ℕ) → n < 2 ^ 63 → strtol (decimal n) ≡ (pos n, [])
unfolding ends
strtol-decimal_all n h = ap strtol (sym (append-nil (decimal n))) ∙ strtol-decimal n [] h refl

unquote-quoted : (k : Bytes) → length k + 2 < 2 ^ 64 → unquote (b'\'' ∷ (k ++ b'\'' ∷ [])) ≡ k
unfolding unquote
unquote-quoted k h =
    let size : (length (b'\'' ∷ (k ++ b'\'' ∷ [])) + (2 ^ 64 - 2)) % 2 ^ 64 ≡ length k =
      omega (arith, length-append k (b'\'' ∷ []), h) in
    ap (λ n. take n (k ++ b'\'' ∷ [])) size ∙ take-append k (b'\'' ∷ [])

all-body : (step : Step) → is_writable step ≡ true → all is_inner (body step) ≡ true
unfolding body is_writable is_inner decimal is_digit
all-body (key k) h =
    let inner = (and-eq-true (all is_inner k) _ h).0 in
    all-append is_inner k (b'\'' ∷ []) inner refl
all-body (index n) h =
    all_mono is_digit is_inner (decimal n) (λ c digit. ground (arith, digit)) (all-digits n n)

body-snoc :
    (step : Step) → (bs : Bytes) × (z : ℕ) × (body step ≡ bs ++ z ∷ []) × ((z == b'\\') ≡ false)
unfolding body decimal is_digit
body-snoc (key k) = (b'\'' ∷ k, b'\'', refl, refl)
body-snoc (index n) =
    let (ds, c, same, digit) = digits-snoc n n in (ds, c, same, ground (arith, digit))

unescaped-at :
    (xs ys : Bytes) (z i : ℕ)
    → (z == b'\\') ≡ false
    → i ≡ suc (length xs)
    → unescaped (xs ++ z ∷ ys) i ≡ true
unescaped-at xs ys z zero h same = absurd (omega (arith, same))
unescaped-at xs ys z (suc i) h same =
    let at : i ≡ length xs = omega (arith, same) in
    rw (unescaped, at, get_elem?-append xs ys z, h) refl

module _ {D : Type 0} (json : JsonLibrary D) (allow_failure : Bool) where
  look_up-body :
      (data_value : D) (step : Step)
      → is_writable step ≡ true
      → look_up json allow_failure data_value (body step)
        ≡ caught allow_failure data_value (follow json data_value step)
  unfolding look_up body is_writable
  look_up-body data_value (key k) h =
      let short = (ltb_iff _ _).0 ((and-eq-true (all is_inner k) _ h).1) in
      ap (λ name. caught allow_failure data_value (json.at_key data_value name))
        (unquote-quoted k short)
  look_up-body data_value (index n) h =
      rw (decimal_unquoted n, strtol-decimal_all n ((ltb_iff _ _).0 h)) refl

  -- Inside a step the characters are passed over.
  query_loop-inner :
      (query rest bs : Bytes) (i : ℕ) (scan : Query D)
      → scan.started ≡ true
      → all is_inner bs ≡ true
      → query_loop json allow_failure query i (bs ++ rest) scan
        ≡ query_loop json allow_failure query (i + length bs) rest scan
  unfolding query_loop query_step is_inner
  query_loop-inner query rest [] i scan h k =
      ap (λ at. query_loop json allow_failure query at rest scan) (omega arith)
  query_loop-inner query rest (c ∷ bs) i scan h k =
      let next = query_loop-inner query rest bs (i + 1) scan h (ground (arith, k)) in
      let step : query_step json allow_failure query i c scan ≡ found scan = ground (arith, h, k) in
      rw (query_loop, step)
        (next ∙ ap (λ at. query_loop json allow_failure query at rest scan) (omega arith))

  -- The bracket that ends a step: its text is looked up.
  query_step-close :
      (pre bs post : Bytes) (z i : ℕ) (scan : Query D)
      → scan.start ≡ length pre
      → i ≡ length pre + length (bs ++ z ∷ [])
      → (z == b'\\') ≡ false
      → query_step json allow_failure (pre ++ ((bs ++ z ∷ []) ++ b']' ∷ post)) i b']' scan
        ≡ looked_up json scan (look_up json allow_failure scan.data_value (bs ++ z ∷ []))
  unfolding query_step
  query_step-close pre bs post z i scan begin at h =
      let whole : Bytes = pre ++ ((bs ++ z ∷ []) ++ b']' ∷ post) in
      let regroup : whole ≡ (pre ++ bs) ++ z ∷ (b']' ∷ post) =
        ap (λ s. pre ++ s) (append_assoc bs (z ∷ []) (b']' ∷ post))
        ∙ sym (append_assoc pre bs (z ∷ (b']' ∷ post))) in
      let last : i ≡ suc (length (pre ++ bs)) =
        omega (arith, at, length-append bs (z ∷ []), length-append pre bs) in
      let open_end : unescaped whole i ≡ true =
        ap (λ q. unescaped q i) regroup ∙ unescaped-at (pre ++ bs) (b']' ∷ post) z i h last in
      let size : i - length pre ≡ length (bs ++ z ∷ []) = omega (arith, at) in
      let text : substr whole scan.start (i - scan.start) ≡ bs ++ z ∷ [] =
        ap (λ n. substr whole n (i - n)) begin
        ∙ ap (λ s. take (i - length pre) s) (drop-append pre ((bs ++ z ∷ []) ++ b']' ∷ post))
        ∙ ap (λ n. take n ((bs ++ z ∷ []) ++ b']' ∷ post)) size
        ∙ take-append (bs ++ z ∷ []) (b']' ∷ post) in
      rw (open_end, text) refl

  query_step-body :
      (query pre post : Bytes) (step : Step) (i : ℕ) (scan : Query D)
      → is_writable step ≡ true
      → query ≡ pre ++ (body step ++ b']' ∷ post)
      → scan.start ≡ length pre
      → i ≡ length pre + length (body step)
      → query_step json allow_failure query i b']' scan
        ≡ looked_up json scan
            (caught allow_failure scan.data_value (follow json scan.data_value step))
  query_step-body query pre post step i scan writable same begin at =
      let (bs, z, snoc, plain) = body-snoc step in
      let ended = ap (λ text. length pre + length text) snoc in
      ap (λ q. query_step json allow_failure q i b']' scan)
        (same ∙ ap (λ text. pre ++ (text ++ b']' ∷ post)) snoc)
      ∙ query_step-close pre bs post z i scan begin (at ∙ ended) plain
      ∙ ap (λ text. looked_up json scan (look_up json allow_failure scan.data_value text))
          (sym snoc)
      ∙ ap (looked_up json scan) (look_up-body scan.data_value step writable)

  -- What follows a step goes on with the value that was found.
  and_then-looked_up :
      (answer : Answer D) (scan : Query D) (f : Query D → Answer (Query D)) (g : Query D → Answer D)
      → and_then (and_then (looked_up json scan answer) f) g
        ≡ and_then answer
            λ next. and_then (f (record scan { data_value = next; started = false })) g
  and_then-looked_up (found next) scan f g = refl
  and_then-looked_up (failed status) scan f g = refl

  and_then_ext :
      (answer : Answer D) (f g : D → Answer D)
      → ((next : D) → f next ≡ g next)
      → and_then answer f ≡ and_then answer g
  and_then_ext (found next) f g same = same next
  and_then_ext (failed status) f g same = refl

  -- A path behind what has been read.
  query_loop-path :
      (path : List Step) (query pre : Bytes) (data_value : D) (i start : ℕ)
      → all is_writable path ≡ true
      → query ≡ pre ++ print_path path
      → i ≡ length pre
      → and_then
          (query_loop json allow_failure query i
            (print_path path)
            (record { data_value = data_value; start = start; started = false }))
          (λ scan. found scan.data_value)
        ≡ walk json allow_failure data_value path
  unfolding query_loop print_path walk query_step
  query_loop-path [] query pre data_value i start h same at = refl
  query_loop-path (step ∷ path) query pre data_value i start h same at =
      let both = and-eq-true (is_writable step) (all is_writable path) h in
      let scan : Query D = record { data_value = data_value; start = i + 1; started = true } in
      let rest = print_path path in
      let close = i + 1 + length (body step) in
      let opened : query ≡ (pre ++ b'[' ∷ []) ++ (body step ++ b']' ∷ rest) =
        same ∙ sym (append_assoc pre (b'[' ∷ []) (body step ++ b']' ∷ rest)) in
      let size : length (pre ++ b'[' ∷ []) ≡ i + 1 =
        omega (arith, length-append pre (b'[' ∷ []), at) in
      let read : Bytes = (pre ++ b'[' ∷ []) ++ (body step ++ b']' ∷ []) in
      let behind : query ≡ read ++ rest =
        opened
        ∙ ap (λ s. (pre ++ b'[' ∷ []) ++ s) (sym (append_assoc (body step) (b']' ∷ []) rest))
        ∙ sym (append_assoc (pre ++ b'[' ∷ []) (body step ++ b']' ∷ []) rest) in
      let reached : close + 1 ≡ length read = omega (
        arith,
        size,
        length-append (pre ++ b'[' ∷ []) (body step ++ b']' ∷ []),
        length-append (body step) (b']' ∷ []),
      ) in
      ap (λ answer. and_then answer (λ scan. found scan.data_value))
        (query_loop-inner query (b']' ∷ rest) (body step) (i + 1) scan refl (all-body step both.0))
      ∙ ap
          (λ answer.
            and_then
              (and_then answer (λ next. query_loop json allow_failure query (close + 1) rest next))
              (λ scan. found scan.data_value))
          (query_step-body query (pre ++ b'[' ∷ []) rest step close scan both.0 opened (sym size)
            (omega (arith, size)))
      ∙ and_then-looked_up (caught allow_failure data_value (follow json data_value step)) scan
          (λ next. query_loop json allow_failure query (close + 1) rest next)
          (λ scan. found scan.data_value)
      ∙ and_then_ext (caught allow_failure data_value (follow json data_value step)) _ _
          λ next. query_loop-path path query read next (close + 1) (i + 1) both.1 behind reached

  -- A query that is written out from a path leads to the value at its end, one step after the
  -- other; a step on which the library throws is left out if failures are allowed, and otherwise
  -- ends the query with the status 3.
  pub run_query-path :
      (path : List Step) (data_value : D)
      → all is_writable path ≡ true
      → run_query json allow_failure (print_path path) data_value
        ≡ walk json allow_failure data_value path
  unfolding run_query
  run_query-path path data_value h =
      query_loop-path path (print_path path) [] data_value 0 0 h refl refl
