-- ===== src/Elf/Parallel/Schedule.antt =====
-- The result of the parallel run, whatever the schedule of the threads.
use mathlib.Core.List.{Perm}
use autobuild.Base.{
  ℕ, suc, Bool, true, false, ◌||◌, List, [], ◌∷◌, if◌then◌else◌, some, ◌≡◌, refl, sym, subst, ap,
  ◌∙◌, arith, Option-cases, Bool-cases, inl, inr, or_false, ◌++◌, append-nil, Bytes, insert_all,
  contains, contains-insert_all, pos,
}
use autobuild.Elf.Parallel.{
  File, Entry, Sets, queued, owner_steps, Copied, worker, collect, follows,
  elf_copy_debug_symbols_parallel,
}
use autobuild.Elf.Parallel.Follows.{follows-by_owner, follows-fills}
use autobuild.Elf.Strip.{Flags}
use autobuild.ThreadPool.{Work, Pool, Action, run, all_exited, constructed, make_workers}
use autobuild.ThreadPool.Completion.{ComesToEnd, AllEnd-make_workers}
use autobuild.ThreadPool.Tasks.{enqueued, any_of, any_of-Perm, run-tasks}
use autobuild.ThreadPool.Owner.{fills, fills-in_order, fills_total, run-fills_unmanned}
use autobuild.Elf.Parallel.Files.{
  needed_by, offered_by, failed, worker-Fails, worker-sodeps, worker-sonames,
}

any_of_never {ℓ} :
    {A : Type ℓ} (f : A → Bool) (xs : List A) → ((a : A) → f a ≡ false) → any_of f xs ≡ false
any_of_never f [] h = refl
any_of_never f (x ∷ xs) h = ground (arith, h x, any_of_never f xs h)

module _ (exec : List Bytes → ℕ) (files : Bytes → File) (symdir : Bytes) (flags : Flags) where
  module _ (directories : List (List Entry)) (so_deps sonames : List Bytes) where
    libraries :
        (pool : Pool Bytes Sets) (x : Bytes)
        → contains pool.shared.sodeps x
          ≡ any_of (λ src. contains (needed_by files flags src) x) (queued directories)
        → contains (collect flags pool so_deps sonames).so_deps x ≡ (
            contains so_deps x
            || any_of (λ src. contains (needed_by files flags src) x) (queued directories))
    unfolding collect contains
    libraries pool x e = elim (Bool-cases flags.find_so_deps) [
      | inl on ↦ ground (arith, contains-insert_all pool.shared.sodeps so_deps x)
      | inr off ↦
          let never =
            any_of_never (λ src. contains (needed_by files flags src) x) (queued directories)
              (λ src. ground arith) in
          ground (arith, or_false (contains so_deps x))
    ]

    offers :
        (pool : Pool Bytes Sets) (x : Bytes)
        → contains pool.shared.sonames x
          ≡ any_of (λ src. contains (offered_by files flags src) x) (queued directories)
        → contains (collect flags pool so_deps sonames).sonames x ≡ (
            contains sonames x
            || any_of (λ src. contains (offered_by files flags src) x) (queued directories))
    unfolding collect contains
    offers pool x e = elim (Bool-cases flags.find_sonames) [
      | inl on ↦ ground (arith, contains-insert_all pool.shared.sonames sonames x)
      | inr off ↦
          let never =
            any_of_never (λ src. contains (offered_by files flags src) x) (queued directories)
              (λ src. ground arith) in
          ground (arith, or_false (contains sonames x))
    ]

    -- However the threads are scheduled, the status tells whether a queued file has failed, the
    -- set of dependencies grows by the libraries that the queued files need, and the set of
    -- sonames by the names that they offer. There is at least one thread, and the steps are
    -- those of a run that comes to its end.
    pub parallel-files :
        (n : ℕ) (steps : List (Action Bytes)) (c : Copied)
        → elf_copy_debug_symbols_parallel exec files symdir flags directories
            (suc n)
            steps
            so_deps
            sonames
          ≡ some c
        → (c.status ≡ (
            if any_of (failed exec files symdir flags) (queued directories) then pos 1 else pos 0))
          × ((x : Bytes)
              → contains c.so_deps x ≡ (
                  contains so_deps x
                  || any_of (λ src. contains (needed_by files flags src) x) (queued directories)))
          × ((x : Bytes)
              → contains c.sonames x ≡ (
                  contains sonames x
                  || any_of (λ src. contains (offered_by files flags src) x) (queued directories)))
    unfolding elf_copy_debug_symbols_parallel collect contains
    parallel-files n steps c h =
        elim (Option-cases (run process_file steps (constructed process_file (suc n) empty))) [
          | inl none_left ↦ absurd (ground arith)
          | inr (pool, e) ↦
              let followed : follows (queued directories) steps ≡ true = ground arith in
              let (ordered, filled) =
                fills-in_order steps (queued directories)
                  (follows-by_owner steps (queued directories) followed) in
              let left : all_exited pool.workers ≡ true = ground arith in
              let collected : collect flags pool so_deps sonames ≡ c = ground arith in
              let on_queued : (srcs : List Bytes)
                  → Perm srcs (enqueued steps)
                  → Perm srcs (queued directories) =
                λ srcs same. subst (Perm srcs) filled same in
              (
                let (srcs, same, error, libs) =
                      run-tasks process_file (λ sets. contains sets.sodeps [])
                        (λ src. contains (needed_by files flags src) [])
                        (failed exec files symdir flags) (worker-sodeps exec files symdir flags [])
                        (worker-Fails exec files symdir flags) n empty steps pool ordered e left in
                    ap (λ r. r.status) (sym collected)
                    ∙ ap (λ b. if b then pos 1 else pos 0)
                        (error
                          ∙ any_of-Perm (failed exec files symdir flags) (on_queued srcs same)),
                λ x.
                    let (srcs, same, error, libs) =
                      run-tasks process_file (λ sets. contains sets.sodeps x)
                        (λ src. contains (needed_by files flags src) x)
                        (failed exec files symdir flags) (worker-sodeps exec files symdir flags x)
                        (worker-Fails exec files symdir flags) n empty steps pool ordered e left in
                    ap (λ r. contains r.so_deps x) (sym collected)
                    ∙ libraries pool x (libs ∙ any_of-Perm _ (on_queued srcs same)),
                λ x.
                    let (srcs, same, error, names) =
                      run-tasks process_file (λ sets. contains sets.sonames x)
                        (λ src. contains (offered_by files flags src) x)
                        (failed exec files symdir flags) (worker-sonames exec files symdir flags x)
                        (worker-Fails exec files symdir flags) n empty steps pool ordered e left in
                    ap (λ r. contains r.sonames x) (sym collected)
                    ∙ offers pool x (names ∙ any_of-Perm _ (on_queued srcs same)),
              )
        ]
      where
        empty : Sets
        empty = record { sodeps = []; sonames = [] }

        process_file : Bytes → Work Sets
        process_file = worker exec files symdir flags

    -- With no thread at all, which `hardware_concurrency` may ask for, nothing is done to the
    -- queued files and success is reported.
    pub parallel_without_threads :
        elf_copy_debug_symbols_parallel exec files symdir flags directories 0
          (owner_steps directories)
          so_deps
          sonames
        ≡ some (record { status = pos 0; so_deps = so_deps; sonames = sonames })
    unfolding elf_copy_debug_symbols_parallel owner_steps collect insert_all all_exited make_workers
    parallel_without_threads =
        let (pool, ran, workers, error, shared) =
          run-fills_unmanned (worker exec files symdir flags) (queued directories)
            (constructed (worker exec files symdir flags) 0 (record { sodeps = []; sonames = [] }))
            refl in
        let followed : follows (queued directories) (fills (queued directories)) ≡ true =
          subst (λ l. follows (queued directories) l ≡ true)
            (append-nil (fills (queued directories)))
            (follows-fills (queued directories) [] refl) in
        ground arith

    -- If each file comes to an end, there is a run of any number of
    -- threads that comes to its end, and it gives a result.
    pub parallel_total :
        ((src : Bytes) → ComesToEnd (worker exec files symdir flags src))
        → (thread_num : ℕ)
        → (steps : List (Action Bytes)) × (c : Copied) × (elf_copy_debug_symbols_parallel exec files
              symdir flags directories thread_num steps so_deps sonames
            ≡ some c)
    unfolding elf_copy_debug_symbols_parallel
    parallel_total total thread_num =
        let (steps, pool, own, ran, gone) =
          fills_total (worker exec files symdir flags) total (queued directories)
            (constructed (worker exec files symdir flags) thread_num
              (record { sodeps = []; sonames = [] }))
            (AllEnd-make_workers thread_num) in
        (
          fills (queued directories) ++ steps,
          collect flags pool so_deps sonames,
          ground (arith, follows-fills (queued directories) steps own),
        )
