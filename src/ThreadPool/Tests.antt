-- ===== src/ThreadPool/Tests.antt =====
-- A pool of two threads, and the statements about the pool at one of its runs.
use autobuild.Base.{
  ℕ, Bool, ◌==◌, ◌||◌, true, false, List, [], ◌∷◌, some, ◌≡◌, refl, if◌then◌else◌, pos,
}
use autobuild.ThreadPool.{
  Work, ended, access, waiting, exited, Pool, Action, enqueues, stops, takes, works, finishes,
  exits, set_worker, make_workers, take_task, work_on, finish_task, exit_loop, act, run, all_exited,
}
use autobuild.ThreadPool.Completion.{
  all_of_workers, ComesToEnd, at_end, behind, AllEnd-make_workers, wait_for_completion_total,
}

-- A task is a number, and 0 fails. What is shared is the list of the tasks that were done.
abbrev record_task : ℕ → Work (List ℕ)
record_task task = access (λ log. task ∷ log) λ log. ended (if task == 0 then pos 1 else pos 0)

abbrev owner : List (Action ℕ)
owner = enqueues 4 ∷ enqueues 0 ∷ stops ∷ []

abbrev workers : List (Action ℕ)
workers = takes 0 ∷ takes 1 ∷ works 1 ∷ works 0 ∷ finishes 1 ∷ finishes 0 ∷ exits 0 ∷ exits 1 ∷ []

abbrev two_threads : Pool ℕ (List ℕ)
two_threads = record {
  workers = waiting ∷ waiting ∷ [];
  queue = 0 ∷ 4 ∷ [];
  stop = true;
  has_error = false;
  shared = [];
}

abbrev at_the_end : Pool ℕ (List ℕ)
at_the_end = record {
  workers = exited ∷ exited ∷ [];
  queue = [];
  stop = true;
  has_error = true;
  shared = 0 ∷ 4 ∷ [];
}

stopped_pool : run record_task workers two_threads ≡ some at_the_end
unfolding run act take_task work_on finish_task exit_loop set_worker
stopped_pool = refl

abbrev whole_run : List (Action ℕ)
whole_run =
    enqueues 4
    ∷ takes 1
    ∷ enqueues 0
    ∷ stops
    ∷ works 1
    ∷ takes 0
    ∷ works 0
    ∷ finishes 1
    ∷ exits 1
    ∷ finishes 0
    ∷ exits 0
    ∷ []

-- Whether the task 4 was done.
abbrev has_four : List ℕ → Bool
has_four [] = false
has_four (task ∷ log) = (task == 4) || has_four log

always_ends : (task : ℕ) → ComesToEnd (record_task task)
always_ends task = behind _ _ λ log. at_end _

wait_for_completion_total_example :
    (steps : List (Action ℕ)) × (q : Pool ℕ (List ℕ)) × (all_of_workers steps ≡ true)
    × (run record_task steps two_threads ≡ some q)
    × (all_exited q.workers ≡ true)
unfolding make_workers
wait_for_completion_total_example =
    wait_for_completion_total record_task always_ends two_threads refl (AllEnd-make_workers 2)
