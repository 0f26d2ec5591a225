-- ===== src/ThreadPool/Steps.antt =====
-- What a worker's step that was taken says of the pool.
use autobuild.Base.{
  ℕ, true, not, List, [], ◌∷◌, Option, none, some, ℤ, is_zero, ◌≡◌, arith, if◌then◌else◌, get_elem?,
}
use autobuild.ThreadPool.{
  Work, ended, hanging, access, Worker, waiting, holding, exited, Pool, set_worker, take_task,
  work_on, finish_task, exit_loop,
}

module _ {ℓ κ} {T : Type ℓ} {S : Type κ} (process : T → Work S) where
  module _ (k : ℕ) (p q : Pool T S) where
    pub take_task_inv :
        (o : Option (Worker T S)) (tasks : List T)
        → get_elem? p.workers k ≡ o
        → p.queue ≡ tasks
        → take_task process k p ≡ some q
        → (task : T) × (rest : List T) × (get_elem? p.workers k ≡ some waiting)
          × (p.queue ≡ task ∷ rest)
          × (q ≡ record p {
            workers = set_worker k (holding task (process task)) p.workers;
            queue = rest;
          })
    unfolding take_task
    take_task_inv (some waiting) (task ∷ rest) e f h = (task, rest, e, f, ground arith)
    take_task_inv (some waiting) [] e f h = absurd (ground arith)
    take_task_inv (some exited) tasks e f h = absurd (ground arith)
    take_task_inv (some (holding task work)) tasks e f h = absurd (ground arith)
    take_task_inv none tasks e f h = absurd (ground arith)

    pub work_on_inv :
        (o : Option (Worker T S))
        → get_elem? p.workers k ≡ o
        → work_on process k p ≡ some q
        → (task : T) × (change : S → S) × (next : S → Work S) × (get_elem? p.workers k
            ≡ some (holding task (access change next)))
          × (q ≡ record p {
            workers = set_worker k (holding task (next p.shared)) p.workers;
            shared = change p.shared;
          })
    unfolding work_on
    work_on_inv none e h = absurd (ground arith)
    work_on_inv (some waiting) e h = absurd (ground arith)
    work_on_inv (some exited) e h = absurd (ground arith)
    work_on_inv (some (holding task (ended status))) e h = absurd (ground arith)
    work_on_inv (some (holding task hanging)) e h = absurd (ground arith)
    work_on_inv (some (holding task (access change next))) e h =
        (task, change, next, e, ground arith)

    pub finish_task_inv :
        (o : Option (Worker T S))
        → get_elem? p.workers k ≡ o
        → finish_task process k p ≡ some q
        → (task : T) × (status : ℤ) × (get_elem? p.workers k ≡ some (holding task (ended status)))
          × (q ≡ record p {
            workers = set_worker k waiting p.workers;
            has_error = if not (is_zero status) then true else p.has_error;
          })
    unfolding finish_task
    finish_task_inv none e h = absurd (ground arith)
    finish_task_inv (some waiting) e h = absurd (ground arith)
    finish_task_inv (some exited) e h = absurd (ground arith)
    finish_task_inv (some (holding task (ended status))) e h = (task, status, e, ground arith)
    finish_task_inv (some (holding task hanging)) e h = absurd (ground arith)
    finish_task_inv (some (holding task (access change next))) e h = absurd (ground arith)

    pub exit_loop_inv :
        (o : Option (Worker T S)) (tasks : List T)
        → get_elem? p.workers k ≡ o
        → p.queue ≡ tasks
        → exit_loop process k p ≡ some q
        → (get_elem? p.workers k ≡ some waiting)
          × (p.queue ≡ [])
          × (p.stop ≡ true)
          × (q ≡ record p { workers = set_worker k exited p.workers })
    unfolding exit_loop
    exit_loop_inv (some waiting) [] e f h = (e, f, ground arith, ground arith)
    exit_loop_inv (some waiting) (task ∷ rest) e f h = absurd (ground arith)
    exit_loop_inv (some exited) tasks e f h = absurd (ground arith)
    exit_loop_inv (some (holding task work)) tasks e f h = absurd (ground arith)
    exit_loop_inv none tasks e f h = absurd (ground arith)
