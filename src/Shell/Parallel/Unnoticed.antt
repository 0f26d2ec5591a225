-- ===== src/Shell/Parallel/Unnoticed.antt =====
-- What the status of `abpp_parallelize` of native/abnativefunctions.cpp does not tell.
use autobuild.Base.{
  ℕ, true, List, [], ◌∷◌, map, Option, none, some, Bytes, ◌≡◌, refl, sym, subst, equal_iff,
}
use autobuild.Shell.{Var}
use autobuild.Shell.Words.{WordList}
use autobuild.ThreadPool.{Work, Pool, Action, enqueues, stops, constructed, run, act}
use autobuild.ThreadPool.Completion.{ComesToEnd, AllEnd, AllEnd-make_workers}
use autobuild.ThreadPool.Owner.{fills_total}
use autobuild.Shell.Parallel.{same_word, only_enqueues, only_stops, parallelize, abpp_parallelize}

run-enqueues {ℓ κ} :
    {T : Type ℓ} {S : Type κ}
    → (process : T → Work S) (tasks : List T) (p : Pool T S)
    → (q : Pool T S) × (run process (map enqueues tasks) p ≡ some q)
      × (q.has_error ≡ p.has_error)
      × (q.workers ≡ p.workers)
unfolding run act
run-enqueues process [] p = (p, refl, refl, refl)
run-enqueues process (task ∷ tasks) p =
    run-enqueues process tasks (record p { queue = task ∷ p.queue })

same_word_refl : (word : Option Bytes) → same_word word word ≡ true
same_word_refl none = refl
same_word_refl (some word) = (equal_iff word word).1 refl

only_enqueues-map : (words : WordList) → only_enqueues words (map enqueues words) ≡ true
unfolding only_enqueues
only_enqueues-map [] = refl
only_enqueues-map (word ∷ words) = rw (same_word_refl word, only_enqueues-map words) refl

module _ {ℓ} {S : Type ℓ} (find_function : Bytes → S → Option Var) (protect : Bytes → S → S)
    (execute_command : Bytes → Option Bytes → Work S) where
  -- If each call of the function comes to an end, then whatever their statuses are, and however many
  -- threads there are, there is a run in which the builtin succeeds.
  pub abpp_parallelize_unnoticed :
      (total : (func : Bytes) (word : Option Bytes) → ComesToEnd (execute_command func word))
      (thread_num : ℕ) (func : Bytes) (words : WordList) (s : S) (var : Var)
      → find_function func s ≡ some var
      → var.is_function ≡ true
      → (before after : List (Action (Option Bytes))) × (t : S) × (abpp_parallelize find_function
            protect execute_command thread_num before after
            (some func ∷ words)
            s
          ≡ some (t, 0))
  unfolding abpp_parallelize parallelize only_stops
  abpp_parallelize_unnoticed total thread_num func words s var has is_function =
      let call = execute_command func in
      let (p, queued, unfailed, manned) =
        run-enqueues call words (constructed call thread_num (protect func s)) in
      let (steps, q, own, ran, gone) =
        fills_total call (total func) [] p
          (subst AllEnd (sym manned) (AllEnd-make_workers thread_num)) in
      (
        map enqueues words,
        stops ∷ steps,
        q.shared,
        rw
            (
              abpp_parallelize,
              has,
              is_function,
              parallelize,
              only_enqueues-map words,
              own,
              queued,
              ran,
              gone,
              unfailed,
            )
            refl,
      )
