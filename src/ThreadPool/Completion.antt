-- ===== src/ThreadPool/Completion.antt =====
-- A pool that is stopped comes to its end.
use autobuild.Base.{
  some-injective, subst, ◌++◌, ℕ, zero, suc, Bool, true, false, not, ◌&&◌, List, [], ◌∷◌, ◌+◌, ◌*◌,
  ◌⊎◌, some, ℤ, is_zero, ◌≡◌, ◌≤◌, refl, ap, arith, if◌then◌else◌, get_elem?, Option-cases,
  Bool-cases, inl, inr, length,
}
use autobuild.ThreadPool.{
  Work, ended, access, Worker, waiting, holding, exited, Pool, Action, enqueues, stops, takes,
  works, finishes, exits, set_worker, make_workers, take_task, work_on, finish_task, exit_loop, act,
  run, all_exited,
}

module _ {ℓ κ} {T : Type ℓ} {S : Type κ} where
  -- The steps that a worker may still take, if there is nothing in the queue, but for accesses.
  abbrev pub left_to_do : Worker T S → ℕ
  left_to_do exited = 0
  left_to_do waiting = 1
  left_to_do (holding task work) = 2

  abbrev pub workers_left : List (Worker T S) → ℕ
  workers_left [] = 0
  workers_left (w ∷ ws) = left_to_do w + workers_left ws

  workers_left-set :
      (k : ℕ) (w v : Worker T S) (ws : List (Worker T S))
      → get_elem? ws k ≡ some v
      → workers_left (set_worker k w ws) + left_to_do v ≡ workers_left ws + left_to_do w
  unfolding set_worker
  workers_left-set k w v [] h = absurd cc
  workers_left-set zero w v (u ∷ ws) h = let same : u ≡ v = cc in omega (arith, ap left_to_do same)
  workers_left-set (suc k) w v (u ∷ ws) h = omega (arith, workers_left-set k w v ws h)

module _ {ℓ} {T : Type ℓ} where
  -- The steps of workers, as against those of the owner.
  abbrev pub is_of_worker : Action T → Bool
  is_of_worker (enqueues task) = false
  is_of_worker stops = false
  is_of_worker _ = true

  abbrev pub all_of_workers : List (Action T) → Bool
  all_of_workers [] = true
  all_of_workers (a ∷ steps) = is_of_worker a && all_of_workers steps

-- The work comes to an end, whatever it finds.
pub data ComesToEnd {κ} {S : Type κ} : Work S → Type κ where
  at_end : (status : ℤ) → ComesToEnd (ended status)
  behind :
      (change : S → S) (next : S → Work S)
      → ((s : S) → ComesToEnd (next s))
      → ComesToEnd (access change next)

get-set_worker {ℓ} :
    {A : Type ℓ}
    → (k : ℕ) (w v : A) (ws : List A) → get_elem? ws k ≡ some v
    → get_elem? (set_worker k w ws) k ≡ some w
unfolding set_worker
get-set_worker k w v [] h = absurd cc
get-set_worker zero w v (u ∷ ws) h = refl
get-set_worker (suc k) w v (u ∷ ws) h = get-set_worker k w v ws h

-- The work that is held comes to an end.
abbrev pub AllEnd {ℓ κ} : {T : Type ℓ} {S : Type κ} → List (Worker T S) → Type (ℓ ⊔ κ)
AllEnd {T = T} {S} ws =
    (k : ℕ) (task : T) (work : Work S) → get_elem? ws k ≡ some (holding task work) → ComesToEnd work

pub AllEnd-make_workers {ℓ κ} :
    {T : Type ℓ} {S : Type κ} → (n : ℕ) → AllEnd (make_workers {T = T} {S = S} n)
unfolding make_workers
AllEnd-make_workers zero k task work h = absurd cc
AllEnd-make_workers (suc n) zero task work h = absurd cc
AllEnd-make_workers (suc n) (suc k) task work h = AllEnd-make_workers n k task work h

AllEnd-set_worker {ℓ κ} :
    {T : Type ℓ} {S : Type κ}
    → (k : ℕ) (v : Worker T S) (ws : List (Worker T S))
    → ((task : T) (work : Work S) → v ≡ holding task work → ComesToEnd work)
    → AllEnd ws
    → AllEnd (set_worker k v ws)
unfolding set_worker
AllEnd-set_worker k v [] new all j task work h = absurd cc
AllEnd-set_worker zero v (u ∷ ws) new all zero task work h =
    new task work (some-injective v (holding task work) h)
AllEnd-set_worker zero v (u ∷ ws) new all (suc j) task work h = all (suc j) task work h
AllEnd-set_worker (suc k) v (u ∷ ws) new all zero task work h = all zero task work h
AllEnd-set_worker (suc k) v (u ∷ ws) new all (suc j) task work h =
    AllEnd-set_worker k v ws new (λ i. all (suc i)) j task work h

all_of_workers-append {ℓ} :
    {T : Type ℓ} (steps more : List (Action T))
    → all_of_workers steps ≡ true
    → all_of_workers more ≡ true
    → all_of_workers (steps ++ more) ≡ true
all_of_workers-append [] more h m = m
all_of_workers-append (a ∷ steps) more h m = ground (arith, all_of_workers-append steps more, h, m)

module _ {ℓ κ} {T : Type ℓ} {S : Type κ} (process : T → Work S) where
  -- A task in the queue takes two steps and its accesses.
  abbrev steps_left : Pool T S → ℕ
  steps_left p = 2 * length p.queue + workers_left p.workers

  run-append :
      (steps more : List (Action T)) (p q r : Pool T S)
      → run process steps p ≡ some q
      → run process more q ≡ some r
      → run process (steps ++ more) p ≡ some r
  unfolding run
  run-append [] more p q r h m = let same : p ≡ q = cc in rw same m
  run-append (a ∷ steps) more p q r h m = elim (Option-cases (act process a p)) [
    | inl n ↦ absurd (ground arith)
    | inr (t, e) ↦
        let rest = run-append steps more t q r (ground (arith, e, h)) m in ground (arith, e, rest)
  ]

  -- What a worker comes to by some steps of its own: the pool goes on from there, with less to do.
  abbrev GoesOn : Pool T S → Type (ℓ ⊔ κ)
  GoesOn p =
      (steps : List (Action T)) × (q : Pool T S) × (all_of_workers steps ≡ true)
      × (run process steps p ≡ some q)
      × (q.stop ≡ true)
      × AllEnd q.workers
      × (steps_left p ≡ steps_left q + 1)

  some_worker :
      (ws : List (Worker T S))
      → all_exited ws ≡ false
      → (k : ℕ) × ((get_elem? ws k ≡ some waiting)
          ⊎ ((task : T) × (work : Work S) × (get_elem? ws k ≡ some (holding task work))))
  unfolding all_exited
  some_worker [] h = absurd cc
  some_worker (waiting ∷ ws) h = (0, inl refl)
  some_worker (holding task work ∷ ws) h = (0, inr (task, work, refl))
  some_worker (exited ∷ ws) h = let (k, found) = some_worker ws h in (suc k, found)

  -- A worker with a task comes to the end of it.
  holding_goes_on :
      (k : ℕ) (p : Pool T S) (task : T) {work : Work S}
      → ComesToEnd work
      → p.stop ≡ true
      → AllEnd p.workers
      → get_elem? p.workers k ≡ some (holding task work)
      → GoesOn p
  unfolding run act finish_task work_on
  holding_goes_on k p task (at_end status) h all e = (
    finishes k ∷ [],
    record p {
      workers = set_worker k waiting p.workers;
      has_error = if not (is_zero status) then true else p.has_error;
    },
    refl,
    ground arith,
    h,
    AllEnd-set_worker k waiting p.workers (λ other left same. absurd cc) all,
    omega (arith, workers_left-set k waiting (holding task (ended status)) p.workers e),
  )
  holding_goes_on k p task (behind change next ends) h all e =
      let found = next p.shared in
      let now : Pool T S = record p {
        workers = set_worker k (holding task found) p.workers;
        shared = change p.shared;
      } in
      let stays =
        AllEnd-set_worker k (holding task found) p.workers
          (λ other left same.
            let is_left : found ≡ left = cc in subst ComesToEnd is_left (ends p.shared))
          all in
      let (steps, q, own, ran, stopped, still, less) =
        holding_goes_on k now task (ends p.shared) h stays
          (get-set_worker k (holding task found) (holding task (access change next)) p.workers e) in
      (
        works k ∷ steps,
        q,
        own,
        ground (arith, e, ran),
        stopped,
        still,
        omega (
          arith,
          less,
          workers_left-set k (holding task found) (holding task (access change next)) p.workers e,
        ),
      )

  module _ (total : (task : T) → ComesToEnd (process task)) where
    -- A worker that waits takes a task or leaves.
    waiting_goes_on :
        (k : ℕ) (p : Pool T S) (tasks : List T)
        → p.queue ≡ tasks
        → p.stop ≡ true
        → AllEnd p.workers
        → get_elem? p.workers k ≡ some waiting
        → GoesOn p
    unfolding run act take_task exit_loop
    waiting_goes_on k p [] f h all e = (
      exits k ∷ [],
      record p { workers = set_worker k exited p.workers },
      refl,
      ground arith,
      h,
      AllEnd-set_worker k exited p.workers (λ other left same. absurd cc) all,
      omega (arith, workers_left-set k exited waiting p.workers e),
    )
    waiting_goes_on k p (task ∷ rest) f h all e = (
      takes k ∷ [],
      record p { workers = set_worker k (holding task (process task)) p.workers; queue = rest },
      refl,
      ground arith,
      h,
      AllEnd-set_worker k (holding task (process task)) p.workers
          (λ other left same.
            let is_left : process task ≡ left = cc in subst ComesToEnd is_left (total task))
          all,
      omega (
        arith,
        ap length f,
        workers_left-set k (holding task (process task)) waiting p.workers e,
      ),
    )

    -- No deadlock: while a worker has not left, there are steps that it can take.
    goes_on :
        (p : Pool T S) → p.stop ≡ true → AllEnd p.workers → all_exited p.workers ≡ false → GoesOn p
    goes_on p h all x =
        let (k, found) = some_worker p.workers x in
        elim found [
          | inl e ↦ waiting_goes_on k p p.queue refl h all e
          | inr (task, work, e) ↦ holding_goes_on k p task (all k task work e) h all e
        ]

    wait_within :
        (n : ℕ) (p : Pool T S)
        → steps_left p ≤ n
        → p.stop ≡ true
        → AllEnd p.workers
        → (steps : List (Action T)) × (q : Pool T S) × (all_of_workers steps ≡ true)
          × (run process steps p ≡ some q)
          × (all_exited q.workers ≡ true)
    unfolding run
    wait_within zero p l h all = elim (Bool-cases (all_exited p.workers)) [
      | inl x ↦ ([], p, refl, refl, x)
      | inr x ↦
          let (steps, q, own, ran, stopped, still, less) = goes_on p h all x in
          absurd (omega (arith, less, l))
    ]
    wait_within (suc n) p l h all = elim (Bool-cases (all_exited p.workers)) [
      | inl x ↦ ([], p, refl, refl, x)
      | inr x ↦
          let (steps, q, own, ran, stopped, still, less) = goes_on p h all x in
          let (more, r, own', ran', gone) =
            wait_within n q (omega (arith, less, l)) stopped still in
          (
            steps ++ more,
            r,
            all_of_workers-append steps more own own',
            run-append steps more p q r ran ran',
            gone,
          )
    ]

    -- If each task comes to an end, those that are worked on included, a pool that is stopped can
    -- always go on until all workers have left, from whatever state it is in: `wait_for_completion`
    -- meets no deadlock.
    pub wait_for_completion_total :
        (p : Pool T S)
        → p.stop ≡ true
        → AllEnd p.workers
        → (steps : List (Action T)) × (q : Pool T S) × (all_of_workers steps ≡ true)
          × (run process steps p ≡ some q)
          × (all_exited q.workers ≡ true)
    wait_for_completion_total p h all = wait_within (steps_left p) p (omega arith) h all
