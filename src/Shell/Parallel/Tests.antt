-- ===== src/Shell/Parallel/Tests.antt =====
-- A function of the shell that fails on every word, on two threads.
use autobuild.Base.{ℕ, ◌+◌, true, false, List, [], ◌∷◌, Option, some, Bytes, codes, pos, ◌≡◌, refl}
use autobuild.Shell.{null, Var}
use autobuild.ThreadPool.{Work, access, ended, Action}
use autobuild.ThreadPool.Completion.{at_end, behind}
use autobuild.Shell.Parallel.{abpp_parallelize}
use autobuild.Shell.Parallel.Unnoticed.{abpp_parallelize_unnoticed}

abbrev failing : Var
failing = record {
  name = codes "f";
  is_array = false;
  is_function = true;
  is_integer = false;
  is_assoc = false;
  value = null;
}

-- What is shared is the number of the calls.
abbrev fails : Bytes → Option Bytes → Work ℕ
fails func word = access (λ calls. calls + 1) λ calls. ended (pos 1)

abpp_parallelize_unnoticed_example :
    (before after : List (Action (Option Bytes))) × (calls : ℕ) × (abpp_parallelize
        (λ name calls. some failing)
        (λ name calls. calls)
        fails
        2
        before
        after
        (some (codes "f") ∷ some (codes "x") ∷ some (codes "y") ∷ [])
        0
      ≡ some (calls, 0))
abpp_parallelize_unnoticed_example =
    abpp_parallelize_unnoticed (λ name calls. some failing) (λ name calls. calls) fails
      (λ func word. behind _ _ λ calls. at_end _) 2 (codes "f")
      (some (codes "x") ∷ some (codes "y") ∷ []) 0 failing refl refl
