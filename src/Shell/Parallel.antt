-- ===== src/Shell/Parallel.antt =====
-- `ShellThreadPool` and `abpp_parallelize` of native/abnativefunctions.cpp, on the thread pool of
-- native/threadpool.hpp.
pub mod Unnoticed
mod Tests
use autobuild.Base.{
  ℕ, Bool, true, false, not, ◌&&◌, List, [], ◌∷◌, if◌then◌else◌, Option, none, some, Bytes, ℤ,
  equal,
}
use autobuild.Shell.{Var}
use autobuild.Shell.Words.{WordList}
use autobuild.ThreadPool.{
  Work, Pool, Action, enqueues, stops, takes, works, finishes, exits, constructed, run, all_exited,
}
use autobuild.ThreadPool.Completion.{all_of_workers}

abbrev pub same_word : Option Bytes → Option Bytes → Bool
same_word none none = true
same_word none (some w) = false
same_word (some w) none = false
same_word (some w) (some v) = equal w v

-- Whether the owner's steps are to put these words into the queue, in order; the steps of workers
-- stand between them.
unfoldable pub only_enqueues : WordList → List (Action (Option Bytes)) → Bool
only_enqueues words (takes k ∷ steps) = only_enqueues words steps
only_enqueues words (works k ∷ steps) = only_enqueues words steps
only_enqueues words (finishes k ∷ steps) = only_enqueues words steps
only_enqueues words (exits k ∷ steps) = only_enqueues words steps
only_enqueues words (stops ∷ steps) = false
only_enqueues (word ∷ words) (enqueues task ∷ steps) =
    same_word word task && only_enqueues words steps
only_enqueues [] (enqueues task ∷ steps) = false
only_enqueues [] [] = true
only_enqueues (word ∷ words) [] = false

-- Whether the owner's one step is to stop the pool, as its destructor does.
unfoldable pub only_stops : List (Action (Option Bytes)) → Bool
only_stops (takes k ∷ steps) = only_stops steps
only_stops (works k ∷ steps) = only_stops steps
only_stops (finishes k ∷ steps) = only_stops steps
only_stops (exits k ∷ steps) = only_stops steps
only_stops (stops ∷ steps) = all_of_workers steps
only_stops (enqueues task ∷ steps) = false
only_stops [] = false

-- `find_function` and `execute_command` are bash's, the latter on a call of the function with one
-- argument, which reads and changes the shell; between two accesses of a call other calls may make
-- theirs. `protect` sets the attributes of the
-- function.
module _ {ℓ} {S : Type ℓ} (find_function : Bytes → S → Option Var) (protect : Bytes → S → S)
    (execute_command : Bytes → Option Bytes → Work S) where
  -- The steps before `has_error` is asked, and those behind it; `none` if they are not a run that
  -- ends with all workers gone.
  unfoldable pub parallelize :
      ℕ
      → Bytes
      → WordList
      → List (Action (Option Bytes))
      → List (Action (Option Bytes))
      → S
      → Option (S × ℕ)
  parallelize thread_num func words before after s =
      let call = execute_command func in
      if not (only_enqueues words before && only_stops after)
      then none
      else elim (run call before (constructed call thread_num s)) [
        | none ↦ none
        | some pool ↦ elim (run call after pool) [
          | none ↦ none
          | some ended ↦
              if all_exited ended.workers
              then some (ended.shared, if pool.has_error then 1 else 0)
              else none
        ]
      ]

  unfoldable pub abpp_parallelize :
      ℕ
      → List (Action (Option Bytes))
      → List (Action (Option Bytes))
      → WordList
      → S
      → Option (S × ℕ)
  abpp_parallelize thread_num before after [] s = some (s, 1)
  abpp_parallelize thread_num before after (none ∷ list) s = some (s, 1)
  abpp_parallelize thread_num before after (some src ∷ list) s = elim (find_function src s) [
    | none ↦ some (s, 1)
    | some var ↦
        if not var.is_function
        then some (s, 1)
        else parallelize thread_num src list before after (protect src s)
  ]
