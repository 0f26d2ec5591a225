-- ===== src/ThreadPool/Tasks.antt =====
-- What a run of the pool makes of its tasks, however their accesses to what they share are mixed.
use mathlib.Core.Bool.{Bool-set}
use mathlib.Core.List.{Perm, perm_middle, foldr}
use mathlib.Core.List.Perm
use autobuild.Base.{
  ℕ, suc, Bool, true, false, not, ◌&&◌, ◌||◌, List, [], ◌∷◌, ◌++◌, some, is_zero, ◌≡◌, ◌≤◌, refl,
  sym, ap, ◌∙◌, subst, arith, append-nil, if◌then◌else◌, Option-cases, inl, inr, length, or_assoc,
  or_false,
}
use autobuild.ThreadPool.{
  Work, waiting, holding, Pool, Action, enqueues, stops, takes, works, finishes, exits, set_worker,
  constructed, take_task, work_on, finish_task, exit_loop, act, run, all_exited,
}
use autobuild.ThreadPool.Steps.{take_task_inv, work_on_inv, finish_task_inv, exit_loop_inv}
use autobuild.ThreadPool.Workers.{
  held, any_exited, held-take, held-work, held-finish, held-exit, any_exited-set, held-all_exited,
  length-set_worker, any_exited-all_exited, held-make_workers, any_exited-make_workers,
  length-make_workers,
}
use autobuild.ThreadPool.Held.{
  Fails, Adds, HeldAdds, HeldAdds-make_workers, HeldAdds-all_exited, HeldAdds-exit, HeldAdds-take,
  HeldAdds-work, HeldAdds-finish,
}

abbrev pub any_of {ℓ} : {A : Type ℓ} → (A → Bool) → List A → Bool
any_of f = foldr (λ a b. f a || b) false

or_swap : (a b c : Bool) → (a || (b || c)) ≡ (b || (a || c))
or_swap true true c = refl
or_swap true false c = refl
or_swap false b c = refl

pub any_of-Perm {ℓ} :
    {A : Type ℓ} (f : A → Bool) {xs ys : List A} → Perm xs ys → any_of f xs ≡ any_of f ys
any_of-Perm f p = Perm.foldr-eq Bool-set (λ a b. f a || b) (λ a b c. or_swap (f a) (f b) c) p false

failed_or : (b c : Bool) → (if b then true else c) ≡ (b || c)
failed_or true c = refl
failed_or false c = refl

module _ {ℓ} {T : Type ℓ} where
  -- The tasks that the owner has put into the queue.
  abbrev pub enqueued : List (Action T) → List T
  enqueued [] = []
  enqueued (enqueues task ∷ steps) = task ∷ enqueued steps
  enqueued (stops ∷ steps) = enqueued steps
  enqueued (takes k ∷ steps) = enqueued steps
  enqueued (works k ∷ steps) = enqueued steps
  enqueued (finishes k ∷ steps) = enqueued steps
  enqueued (exits k ∷ steps) = enqueued steps

  -- Nothing is put into the queue after `stop`.
  abbrev pub in_order : Bool → List (Action T) → Bool
  in_order stopped [] = true
  in_order stopped (enqueues task ∷ steps) = not stopped && in_order stopped steps
  in_order stopped (stops ∷ steps) = in_order true steps
  in_order stopped (takes k ∷ steps) = in_order stopped steps
  in_order stopped (works k ∷ steps) = in_order stopped steps
  in_order stopped (finishes k ∷ steps) = in_order stopped steps
  in_order stopped (exits k ∷ steps) = in_order stopped steps

module _ {T : Type 0} {S : Type 0} (process : T → Work S) (see : S → Bool)
    (adds fails : T → Bool) where
  -- What is so between two steps: each task is queued, held or processed, the fact is true if it was
  -- before or the processed tasks or those that are held have made it so, there is an error just if
  -- a processed task has failed, and a worker that has left has left nothing in the queue.
  record Inv (s : S) (tasks : List T) (p : Pool T S) : Type 0 where
    processed : List T
    accounted : Perm (p.queue ++ (held p.workers ++ processed)) tasks
    added : Bool
    held_adds : HeldAdds see adds fails p.workers added
    seen : see p.shared ≡ ((see s || any_of adds processed) || added)
    failing : p.has_error ≡ any_of fails processed
    manned : 1 ≤ length p.workers
    emptied : any_exited p.workers ≡ true → (p.queue ≡ []) × (p.stop ≡ true)

  module _ (each_adds : (task : T) → Adds see (process task) (adds task))
      (each_fails : (task : T) → Fails (process task) (fails task)) where
    module _ {s : S} {tasks : List T} (k : ℕ) {p q : Pool T S} (i : Inv s tasks p) where
      take_task-Inv : take_task process k p ≡ some q → Inv s tasks q
      unfolding any_exited
      take_task-Inv h =
          let (task, rest, e, f, g) = take_task_inv process k p q _ _ refl refl h in
          let work = process task in
          subst (Inv s tasks) (sym g) (record {
            processed = i.processed;
            accounted =
                Perm.trans
                  (Perm.append_left rest
                    (Perm.append_right i.processed (held-take k task work p.workers e)))
                  (Perm.trans (perm_middle rest (held p.workers ++ i.processed))
                    (subst (λ l. Perm (l ++ (held p.workers ++ i.processed)) tasks) f i.accounted));
            added = i.added;
            held_adds =
                HeldAdds-take see adds fails k task work p.workers i.added (each_adds task)
                  (each_fails task) e i.held_adds;
            seen = i.seen;
            failing = i.failing;
            manned = rw (length-set_worker k (holding task work) p.workers) i.manned;
            emptied = λ x.
                let (none_left, stopped) =
                  i.emptied (any_exited-set k (holding task work) p.workers refl x) in
                absurd (cc (none_left, f));
          })

      work_on-Inv : work_on process k p ≡ some q → Inv s tasks q
      unfolding any_exited
      work_on-Inv h =
          let (task, change, next, e, g) = work_on_inv process k p q _ refl h in
          let (c, added, grows, now_held, more) =
            HeldAdds-work see adds fails k task change next p.workers i.added p.shared e
              i.held_adds in
          subst (Inv s tasks) (sym g) (record {
            processed = i.processed;
            accounted =
                subst (λ l. Perm (p.queue ++ (l ++ i.processed)) tasks)
                  (sym (held-work k task _ (next p.shared) p.workers e)) i.accounted;
            added = added;
            held_adds = now_held;
            seen =
                grows
                ∙ ap (λ b. b || c) i.seen
                ∙ sym (or_assoc (see s || any_of adds i.processed) i.added c)
                ∙ ap (◌||◌ (see s || any_of adds i.processed)) (sym more);
            failing = i.failing;
            manned = rw (length-set_worker k (holding task (next p.shared)) p.workers) i.manned;
            emptied =
                λ x. i.emptied (any_exited-set k (holding task (next p.shared)) p.workers refl x);
          })

      finish_task-Inv : finish_task process k p ≡ some q → Inv s tasks q
      unfolding any_exited
      finish_task-Inv h =
          let (task, status, e, g) = finish_task_inv process k p q _ refl h in
          let (left, now_held, made, failed) =
            HeldAdds-finish see adds fails k task status p.workers i.added e i.held_adds in
          subst (Inv s tasks) (sym g) (record {
            processed = task ∷ i.processed;
            accounted =
                Perm.trans
                  (Perm.append_left p.queue (
                    Perm.trans (perm_middle (held (set_worker k waiting p.workers)) i.processed)
                      (Perm.append_right i.processed (held-finish k task _ p.workers e))))
                  i.accounted;
            added = left;
            held_adds = now_held;
            seen =
                i.seen
                ∙ ap (◌||◌ (see s || any_of adds i.processed)) made
                ∙ or_done (see s) (any_of adds i.processed) left (adds task);
            failing =
                failed_or (not (is_zero status)) p.has_error
                ∙ ap (λ b. b || p.has_error) failed
                ∙ ap (◌||◌ (fails task)) i.failing;
            manned = rw (length-set_worker k waiting p.workers) i.manned;
            emptied = λ x. i.emptied (any_exited-set k waiting p.workers refl x);
          })
        where
          or_done : (a b c d : Bool) → ((a || b) || (c || d)) ≡ ((a || (d || b)) || c)
          or_done true b c d = refl
          or_done false true c true = refl
          or_done false true c false = refl
          or_done false false true true = refl
          or_done false false true false = refl
          or_done false false false true = refl
          or_done false false false false = refl

      exit_loop-Inv : exit_loop process k p ≡ some q → Inv s tasks q
      exit_loop-Inv h =
          let (e, f, stopped, g) = exit_loop_inv process k p q _ _ refl refl h in
          subst (Inv s tasks) (sym g) (record {
            processed = i.processed;
            accounted =
                subst (λ l. Perm (p.queue ++ (l ++ i.processed)) tasks)
                  (sym (held-exit k p.workers e)) i.accounted;
            added = i.added;
            held_adds = HeldAdds-exit see adds fails k p.workers i.added e i.held_adds;
            seen = i.seen;
            failing = i.failing;
            manned = rw (length-set_worker k _ p.workers) i.manned;
            emptied = λ x. (f, stopped);
          })

    Inv-Perm :
        {s : S} {tasks tasks' : List T} {p : Pool T S}
        → Perm tasks tasks'
        → Inv s tasks p
        → Inv s tasks' p
    Inv-Perm m i = record {
      processed = i.processed;
      accounted = Perm.trans i.accounted m;
      added = i.added;
      held_adds = i.held_adds;
      seen = i.seen;
      failing = i.failing;
      manned = i.manned;
      emptied = i.emptied;
    }

    enqueues-Inv :
        {s : S} {tasks : List T} {p : Pool T S} (task : T)
        → p.stop ≡ false
        → Inv s tasks p
        → Inv s (task ∷ tasks) (record p { queue = task ∷ p.queue })
    enqueues-Inv task h i = record {
      processed = i.processed;
      accounted = Perm.cons task i.accounted;
      added = i.added;
      held_adds = i.held_adds;
      seen = i.seen;
      failing = i.failing;
      manned = i.manned;
      emptied = λ x. absurd (cc ((i.emptied x).1, h));
    }

    stops-Inv :
        {s : S} {tasks : List T} {p : Pool T S}
        → Inv s tasks p
        → Inv s tasks (record p { stop = true })
    stops-Inv i = record {
      processed = i.processed;
      accounted = i.accounted;
      added = i.added;
      held_adds = i.held_adds;
      seen = i.seen;
      failing = i.failing;
      manned = i.manned;
      emptied = λ x. ((i.emptied x).0, refl);
    }

    module _ (k : ℕ) (p q : Pool T S) where
      take_task-stop : take_task process k p ≡ some q → p.stop ≡ q.stop
      take_task-stop h =
          let (task, rest, e, f, g) = take_task_inv process k p q _ _ refl refl h in rw g refl

      work_on-stop : work_on process k p ≡ some q → p.stop ≡ q.stop
      work_on-stop h =
          let (task, change, next, e, g) = work_on_inv process k p q _ refl h in rw g refl

      finish_task-stop : finish_task process k p ≡ some q → p.stop ≡ q.stop
      finish_task-stop h =
          let (task, status, e, g) = finish_task_inv process k p q _ refl h in rw g refl

      exit_loop-stop : exit_loop process k p ≡ some q → p.stop ≡ q.stop
      exit_loop-stop h =
          let (e, f, stopped, g) = exit_loop_inv process k p q _ _ refl refl h in rw g refl

    run-Inv :
        {s : S} (steps : List (Action T)) {tasks : List T} {p q : Pool T S}
        → in_order p.stop steps ≡ true
        → Inv s tasks p
        → run process steps p ≡ some q
        → Inv s (enqueued steps ++ tasks) q
    unfolding run act
    run-Inv {s} [] {tasks} {p} {q} o i h = let same : p ≡ q = cc in subst (Inv s tasks) same i
    run-Inv (enqueues task ∷ steps) {tasks} {p} o i h =
        let queued : Pool T S = record p { queue = task ∷ p.queue } in
        let (fresh, rest) : (p.stop ≡ false) × (in_order p.stop steps ≡ true) =
          (ground arith, ground arith) in
        Inv-Perm (perm_middle (enqueued steps) tasks)
          (run-Inv steps {p = queued} rest (enqueues-Inv task fresh i) h)
    run-Inv (stops ∷ steps) o i h = run-Inv steps o (stops-Inv i) h
    run-Inv (takes k ∷ steps) {p} o i h = elim (Option-cases (take_task process k p)) [
      | inl n ↦ absurd (ground arith)
      | inr (r, e) ↦
          run-Inv steps {p = r} (subst (λ b. in_order b steps ≡ true) (take_task-stop k p r e) o)
            (take_task-Inv k i e) (ground arith)
    ]
    run-Inv (works k ∷ steps) {p} o i h = elim (Option-cases (work_on process k p)) [
      | inl n ↦ absurd (ground arith)
      | inr (r, e) ↦
          run-Inv steps {p = r} (subst (λ b. in_order b steps ≡ true) (work_on-stop k p r e) o)
            (work_on-Inv k i e) (ground arith)
    ]
    run-Inv (finishes k ∷ steps) {p} o i h = elim (Option-cases (finish_task process k p)) [
      | inl n ↦ absurd (ground arith)
      | inr (r, e) ↦
          run-Inv steps {p = r} (subst (λ b. in_order b steps ≡ true) (finish_task-stop k p r e) o)
            (finish_task-Inv k i e) (ground arith)
    ]
    run-Inv (exits k ∷ steps) {p} o i h = elim (Option-cases (exit_loop process k p)) [
      | inl n ↦ absurd (ground arith)
      | inr (r, e) ↦
          run-Inv steps {p = r} (subst (λ b. in_order b steps ≡ true) (exit_loop-stop k p r e) o)
            (exit_loop-Inv k i e) (ground arith)
    ]

    constructed-Inv : (n : ℕ) (s : S) → Inv s [] (constructed process (suc n) s)
    constructed-Inv n s = record {
      processed = [];
      accounted = rw (held-make_workers T S (suc n)) Perm.nil;
      added = false;
      held_adds = HeldAdds-make_workers see adds fails (suc n);
      seen = sym (or_false (see s || false) ∙ or_false (see s));
      failing = refl;
      manned = omega (arith, length-make_workers T S (suc n));
      emptied = λ x. absurd (cc (x, any_exited-make_workers T S (suc n)));
    }

    pub run-tasks :
        (n : ℕ) (s : S) (steps : List (Action T)) (p : Pool T S)
        → in_order false steps ≡ true
        → run process steps (constructed process (suc n) s) ≡ some p
        → all_exited p.workers ≡ true
        → (tasks : List T) × Perm tasks (enqueued steps)
          × (p.has_error ≡ any_of fails tasks)
          × (see p.shared ≡ (see s || any_of adds tasks))
    run-tasks n s steps p o h x =
        let i = run-Inv steps o (constructed-Inv n s) h in
        let left = any_exited-all_exited p.workers i.manned x in
        let accounted : Perm i.processed (enqueued steps) =
          subst (λ l. Perm (l ++ i.processed) (enqueued steps)) (held-all_exited p.workers x)
            (subst (λ l. Perm (l ++ (held p.workers ++ i.processed)) (enqueued steps))
              (i.emptied left).0 (subst (Perm _) (append-nil (enqueued steps)) i.accounted)) in
        (
          i.processed,
          accounted,
          i.failing,
          i.seen
              ∙ ap (◌||◌ (see s || any_of adds i.processed))
                  (HeldAdds-all_exited see adds fails p.workers i.added x i.held_adds)
              ∙ or_false (see s || any_of adds i.processed),
        )
