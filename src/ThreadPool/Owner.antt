-- ===== src/ThreadPool/Owner.antt =====
-- The owner's part of a run of the pool: it fills the queue, and stops the pool.
use autobuild.Base.{true, false, List, [], ◌∷◌, ◌++◌, some, ◌≡◌, map, refl, sym, subst, ◌∙◌}
use autobuild.ThreadPool.{
  Work, Pool, Action, enqueues, stops, takes, works, finishes, exits, act, run, all_exited,
}
use autobuild.ThreadPool.Tasks.{enqueued, in_order}
use autobuild.ThreadPool.Completion.{all_of_workers, ComesToEnd, AllEnd, wait_for_completion_total}

module _ {ℓ} {T : Type ℓ} where
  -- The steps of a run that are the owner's.
  abbrev pub by_owner : List (Action T) → List (Action T)
  by_owner [] = []
  by_owner (enqueues task ∷ steps) = enqueues task ∷ by_owner steps
  by_owner (stops ∷ steps) = stops ∷ by_owner steps
  by_owner (takes k ∷ steps) = by_owner steps
  by_owner (works k ∷ steps) = by_owner steps
  by_owner (finishes k ∷ steps) = by_owner steps
  by_owner (exits k ∷ steps) = by_owner steps

  -- The owner that puts some tasks into the queue and stops the pool.
  abbrev pub fills : List T → List (Action T)
  fills tasks = map enqueues tasks ++ (stops ∷ [])

  nothing_more :
      (steps : List (Action T))
      → by_owner steps ≡ []
      → (in_order true steps ≡ true) × (enqueued steps ≡ [])
  nothing_more [] h = (refl, refl)
  nothing_more (enqueues task ∷ steps) h = absurd cc
  nothing_more (stops ∷ steps) h = absurd cc
  nothing_more (takes k ∷ steps) h = nothing_more steps h
  nothing_more (works k ∷ steps) h = nothing_more steps h
  nothing_more (finishes k ∷ steps) h = nothing_more steps h
  nothing_more (exits k ∷ steps) h = nothing_more steps h

  pub fills-in_order :
      (steps : List (Action T)) (tasks : List T)
      → by_owner steps ≡ fills tasks
      → (in_order false steps ≡ true) × (enqueued steps ≡ tasks)
  fills-in_order [] [] h = absurd cc
  fills-in_order [] (task ∷ tasks) h = absurd cc
  fills-in_order (enqueues task ∷ steps) [] h = absurd cc
  fills-in_order (enqueues task ∷ steps) (first ∷ tasks) h =
      let same : task ≡ first = cc in
      let (ordered, all) = fills-in_order steps tasks cc in (ordered, cc (same, all))
  fills-in_order (stops ∷ steps) [] h = nothing_more steps cc
  fills-in_order (stops ∷ steps) (task ∷ tasks) h = absurd cc
  fills-in_order (takes k ∷ steps) tasks h = fills-in_order steps tasks h
  fills-in_order (works k ∷ steps) tasks h = fills-in_order steps tasks h
  fills-in_order (finishes k ∷ steps) tasks h = fills-in_order steps tasks h
  fills-in_order (exits k ∷ steps) tasks h = fills-in_order steps tasks h

  pub by_owner-workers :
      (steps : List (Action T)) → all_of_workers steps ≡ true → by_owner steps ≡ []
  by_owner-workers [] h = refl
  by_owner-workers (enqueues task ∷ steps) h = absurd cc
  by_owner-workers (stops ∷ steps) h = absurd cc
  by_owner-workers (takes k ∷ steps) h = by_owner-workers steps h
  by_owner-workers (works k ∷ steps) h = by_owner-workers steps h
  by_owner-workers (finishes k ∷ steps) h = by_owner-workers steps h
  by_owner-workers (exits k ∷ steps) h = by_owner-workers steps h

module _ {ℓ κ} {T : Type ℓ} {S : Type κ} (process : T → Work S) where
  filled : List T → Pool T S → Pool T S
  filled [] p = record p { stop = true }
  filled (task ∷ tasks) p = filled tasks (record p { queue = task ∷ p.queue })

  filled-stop : (tasks : List T) (p : Pool T S) → (filled tasks p).stop ≡ true
  unfolding filled
  filled-stop [] p = refl
  filled-stop (task ∷ tasks) p = filled-stop tasks (record p { queue = task ∷ p.queue })

  filled-workers : (tasks : List T) (p : Pool T S) → (filled tasks p).workers ≡ p.workers
  unfolding filled
  filled-workers [] p = refl
  filled-workers (task ∷ tasks) p = filled-workers tasks (record p { queue = task ∷ p.queue })

  run-filled :
      (tasks : List T) (steps : List (Action T)) (p : Pool T S)
      → run process (fills tasks ++ steps) p ≡ run process steps (filled tasks p)
  unfolding run act filled
  run-filled [] steps p = refl
  run-filled (task ∷ tasks) steps p = run-filled tasks steps (record p { queue = task ∷ p.queue })

  -- Without workers the tasks stay in the queue.
  pub run-fills_unmanned :
      (tasks : List T) (p : Pool T S)
      → p.workers ≡ []
      → (q : Pool T S) × (run process (fills tasks) p ≡ some q)
        × (q.workers ≡ [])
        × (q.has_error ≡ p.has_error)
        × (q.shared ≡ p.shared)
  unfolding run act
  run-fills_unmanned [] p h = (record p { stop = true }, refl, h, refl, refl)
  run-fills_unmanned (task ∷ tasks) p h =
      run-fills_unmanned tasks (record p { queue = task ∷ p.queue }) h

  -- If each task comes to an end, there are steps of workers with which all leave, after the owner
  -- has filled the queue and stopped the pool.
  pub fills_total :
      ((task : T) → ComesToEnd (process task))
      → (tasks : List T) (p : Pool T S) → AllEnd p.workers
      → (steps : List (Action T)) × (q : Pool T S) × (all_of_workers steps ≡ true)
        × (run process (fills tasks ++ steps) p ≡ some q)
        × (all_exited q.workers ≡ true)
  fills_total total tasks p all =
      let (steps, q, own, ran, gone) =
        wait_for_completion_total process total (filled tasks p) (filled-stop tasks p)
          (subst AllEnd (sym (filled-workers tasks p)) all) in
      (steps, q, own, run-filled tasks steps p ∙ ran, gone)
