-- ===== src/ThreadPool.antt =====
-- native/threadpool.hpp, `ThreadPool`: worker threads that take tasks from the back of a queue.
-- The code under the mutex is one step, and so is each access of a task to what the tasks share; a run
-- of the pool is the sequence of the steps of its threads and of its owner.
pub mod Tasks
pub mod Held
pub mod Steps
pub mod Workers
pub mod Completion
pub mod Owner
mod Tests
use autobuild.Base.{
  ℕ, zero, suc, Bool, true, false, not, ◌&&◌, ◌||◌, List, [], ◌∷◌, Option, none, some, ℤ, is_zero,
  if◌then◌else◌, get_elem?,
}

-- The processing of a task, which is not under the mutex: it has ended with a status, it never ends,
-- or it makes one access to what is shared and goes on by what it has found there. Between two
-- accesses of a task other threads may take steps.
pub data Work {κ} (S : Type κ) : Type κ where
  ended : ℤ → Work S
  hanging : Work S
  access : (S → S) → (S → Work S) → Work S

-- A worker is at the head of its loop, has taken a task and has some work left on it, or has left
-- the loop.
pub data Worker {ℓ κ} (T : Type ℓ) (S : Type κ) : Type (ℓ ⊔ κ) where
  waiting exited : Worker T S
  holding : T → Work S → Worker T S

-- `shared` is what the tasks change. The head of `queue` is the back of `m_queue`.
pub record Pool {ℓ κ} (T : Type ℓ) (S : Type κ) : Type (ℓ ⊔ κ) where
  pub workers : List (Worker T S)
  pub queue : List T
  pub stop : Bool
  pub has_error : Bool
  pub shared : S

-- `enqueue` and `stop` of the owner, and what a worker does next: it takes a task, it makes an access
-- for its task, it comes to the end of its task, or it leaves the loop.
pub data Action {ℓ} (T : Type ℓ) : Type ℓ where
  enqueues : T → Action T
  stops : Action T
  takes works finishes exits : ℕ → Action T

unfoldable pub set_worker {ℓ} : {A : Type ℓ} → ℕ → A → List A → List A
set_worker k w [] = []
set_worker zero w (v ∷ vs) = w ∷ vs
set_worker (suc k) w (v ∷ vs) = v ∷ set_worker k w vs

module _ {ℓ κ} {T : Type ℓ} {S : Type κ} where
  -- The constructor's loop.
  unfoldable pub make_workers : ℕ → List (Worker T S)
  make_workers zero = []
  make_workers (suc n) = waiting ∷ make_workers n

-- `process` is the work on a task.
module _ {ℓ κ} {T : Type ℓ} {S : Type κ} (process : T → Work S) where
  abbrev pub constructed : ℕ → S → Pool T S
  constructed thread_num s = record {
    workers = make_workers thread_num;
    queue = [];
    stop = false;
    has_error = false;
    shared = s;
  }

  unfoldable pub take_task : ℕ → Pool T S → Option (Pool T S)
  take_task k p = elim (get_elem? p.workers k) [
    | some waiting ↦ elim p.queue [
      | [] ↦ none
      | task ∷ rest ↦ some (record p {
        workers = set_worker k (holding task (process task)) p.workers;
        queue = rest;
      })
    ]
    | _ ↦ none
  ]

  -- One access of the task that a worker holds.
  unfoldable pub work_on : ℕ → Pool T S → Option (Pool T S)
  work_on k p = elim (get_elem? p.workers k) [
    | some (holding task work) ↦ elim work [
      | ended status ↦ none
      | hanging ↦ none
      | access change next ↦ some (record p {
        workers = set_worker k (holding task (next p.shared)) p.workers;
        shared = change p.shared;
      })
    ]
    | _ ↦ none
  ]

  unfoldable pub finish_task : ℕ → Pool T S → Option (Pool T S)
  finish_task k p = elim (get_elem? p.workers k) [
    | some (holding task work) ↦ elim work [
      | ended status ↦ some (record p {
        workers = set_worker k waiting p.workers;
        has_error = if not (is_zero status) then true else p.has_error;
      })
      | hanging ↦ none
      | access change next ↦ none
    ]
    | _ ↦ none
  ]

  unfoldable pub exit_loop : ℕ → Pool T S → Option (Pool T S)
  exit_loop k p = elim (get_elem? p.workers k) [
    | some waiting ↦ elim p.queue [
      | [] ↦ if p.stop then some (record p { workers = set_worker k exited p.workers }) else none
      | task ∷ rest ↦ none
    ]
    | _ ↦ none
  ]

  -- A step; `none` if it cannot be taken.
  unfoldable pub act : Action T → Pool T S → Option (Pool T S)
  act (enqueues task) p = some (record p { queue = task ∷ p.queue })
  act stops p = some (record p { stop = true })
  act (takes k) p = take_task k p
  act (works k) p = work_on k p
  act (finishes k) p = finish_task k p
  act (exits k) p = exit_loop k p

  unfoldable pub run : List (Action T) → Pool T S → Option (Pool T S)
  run [] p = some p
  run (a ∷ steps) p = elim (act a p) [ none ↦ none | some q ↦ run steps q ]

-- What `wait_for_completion` waits for.
unfoldable pub all_exited {ℓ κ} : {T : Type ℓ} {S : Type κ} → List (Worker T S) → Bool
all_exited [] = true
all_exited (exited ∷ ws) = all_exited ws
all_exited (waiting ∷ ws) = false
all_exited (holding task work ∷ ws) = false
