-- ===== src/ThreadPool/Workers.antt =====
-- The list of workers: the tasks that they hold, and those that have left.
use mathlib.Core.List.{Perm}
use mathlib.Core.List.Perm
use autobuild.Base.{
  ℕ, zero, suc, Bool, true, false, List, [], ◌∷◌, some, ◌≡◌, ◌≤◌, refl, ap, sym, arith, get_elem?,
  length,
}
use autobuild.ThreadPool.{
  Work, Worker, waiting, holding, exited, set_worker, make_workers, all_exited,
}

module _ {ℓ κ} {T : Type ℓ} {S : Type κ} where
  -- The tasks that workers hold.
  unfoldable pub held : List (Worker T S) → List T
  held [] = []
  held (waiting ∷ ws) = held ws
  held (exited ∷ ws) = held ws
  held (holding task work ∷ ws) = task ∷ held ws

  unfoldable pub any_exited : List (Worker T S) → Bool
  any_exited [] = false
  any_exited (exited ∷ ws) = true
  any_exited (waiting ∷ ws) = any_exited ws
  any_exited (holding task work ∷ ws) = any_exited ws

  pub held-take :
      (k : ℕ) (task : T) (work : Work S) (ws : List (Worker T S))
      → get_elem? ws k ≡ some waiting
      → Perm (held (set_worker k (holding task work) ws)) (task ∷ held ws)
  unfolding held set_worker
  held-take k task work [] h = absurd cc
  held-take zero task work (waiting ∷ ws) h = Perm.rfl
  held-take zero task work (exited ∷ ws) h = absurd cc
  held-take zero task work (holding other work' ∷ ws) h = absurd cc
  held-take (suc k) task work (waiting ∷ ws) h = held-take k task work ws h
  held-take (suc k) task work (exited ∷ ws) h = held-take k task work ws h
  held-take (suc k) task work (holding other work' ∷ ws) h =
      Perm.trans (Perm.cons other (held-take k task work ws h)) (Perm.swap task other (held ws))

  pub held-finish :
      (k : ℕ) (task : T) (work : Work S) (ws : List (Worker T S))
      → get_elem? ws k ≡ some (holding task work)
      → Perm (task ∷ held (set_worker k waiting ws)) (held ws)
  unfolding held set_worker
  held-finish k task work [] h = absurd cc
  held-finish zero task work (waiting ∷ ws) h = absurd cc
  held-finish zero task work (exited ∷ ws) h = absurd cc
  held-finish zero task work (holding other work' ∷ ws) h =
      let same : other ≡ task = cc in rw same Perm.rfl
  held-finish (suc k) task work (waiting ∷ ws) h = held-finish k task work ws h
  held-finish (suc k) task work (exited ∷ ws) h = held-finish k task work ws h
  held-finish (suc k) task work (holding other work' ∷ ws) h =
      Perm.trans (Perm.swap other task _) (Perm.cons other (held-finish k task work ws h))

  pub held-work :
      (k : ℕ) (task : T) (work next : Work S) (ws : List (Worker T S))
      → get_elem? ws k ≡ some (holding task work)
      → held (set_worker k (holding task next) ws) ≡ held ws
  unfolding held set_worker
  held-work k task work next [] h = refl
  held-work zero task work next (waiting ∷ ws) h = absurd cc
  held-work zero task work next (exited ∷ ws) h = absurd cc
  held-work zero task work next (holding other work' ∷ ws) h =
      let same : other ≡ task = cc in ap (λ t. t ∷ held ws) (sym same)
  held-work (suc k) task work next (waiting ∷ ws) h = held-work k task work next ws h
  held-work (suc k) task work next (exited ∷ ws) h = held-work k task work next ws h
  held-work (suc k) task work next (holding other work' ∷ ws) h =
      ap (◌∷◌ other) (held-work k task work next ws h)

  pub held-exit :
      (k : ℕ) (ws : List (Worker T S))
      → get_elem? ws k ≡ some waiting
      → held (set_worker k exited ws) ≡ held ws
  unfolding held set_worker
  held-exit k [] h = refl
  held-exit zero (waiting ∷ ws) h = refl
  held-exit zero (exited ∷ ws) h = refl
  held-exit zero (holding task work ∷ ws) h = absurd cc
  held-exit (suc k) (waiting ∷ ws) h = held-exit k ws h
  held-exit (suc k) (exited ∷ ws) h = held-exit k ws h
  held-exit (suc k) (holding task work ∷ ws) h = ap (◌∷◌ task) (held-exit k ws h)

  any_exited_cons :
      (w : Worker T S) (ws : List (Worker T S))
      → any_exited (w ∷ []) ≡ false
      → any_exited (w ∷ ws) ≡ true
      → any_exited ws ≡ true
  unfolding any_exited
  any_exited_cons waiting ws n h = h
  any_exited_cons (holding task work) ws n h = h
  any_exited_cons exited ws n h = absurd cc

  any_exited_tail :
      (v : Worker T S) (ws : List (Worker T S)) → any_exited ws ≡ true → any_exited (v ∷ ws) ≡ true
  unfolding any_exited
  any_exited_tail waiting ws h = h
  any_exited_tail (holding task work) ws h = h
  any_exited_tail exited ws h = refl

  -- A worker that goes on does not count steps one that has left the loop.
  pub any_exited-set :
      (k : ℕ) (w : Worker T S) (ws : List (Worker T S))
      → any_exited (w ∷ []) ≡ false
      → any_exited (set_worker k w ws) ≡ true
      → any_exited ws ≡ true
  unfolding any_exited set_worker
  any_exited-set k w [] n h = h
  any_exited-set zero w (v ∷ ws) n h = any_exited_tail v ws (any_exited_cons w ws n h)
  any_exited-set (suc k) w (waiting ∷ ws) n h = any_exited-set k w ws n h
  any_exited-set (suc k) w (exited ∷ ws) n h = refl
  any_exited-set (suc k) w (holding task work ∷ ws) n h = any_exited-set k w ws n h

  pub held-all_exited : (ws : List (Worker T S)) → all_exited ws ≡ true → held ws ≡ []
  unfolding held all_exited
  held-all_exited [] h = refl
  held-all_exited (exited ∷ ws) h = held-all_exited ws h
  held-all_exited (waiting ∷ ws) h = absurd cc
  held-all_exited (holding task work ∷ ws) h = absurd cc

  pub length-set_worker :
      (k : ℕ) (w : Worker T S) (ws : List (Worker T S)) → length (set_worker k w ws) ≡ length ws
  unfolding set_worker
  length-set_worker k w [] = refl
  length-set_worker zero w (v ∷ vs) = refl
  length-set_worker (suc k) w (v ∷ vs) = ap suc (length-set_worker k w vs)

  pub any_exited-all_exited :
      (ws : List (Worker T S)) → 1 ≤ length ws → all_exited ws ≡ true → any_exited ws ≡ true
  unfolding any_exited all_exited
  any_exited-all_exited [] n h = absurd (omega arith)
  any_exited-all_exited (exited ∷ ws) n h = refl
  any_exited-all_exited (waiting ∷ ws) n h = absurd cc
  any_exited-all_exited (holding task work ∷ ws) n h = absurd cc

module _ {ℓ κ} (T : Type ℓ) (S : Type κ) where
  pub held-make_workers : (n : ℕ) → held (make_workers {T = T} {S = S} n) ≡ []
  unfolding held make_workers
  held-make_workers zero = refl
  held-make_workers (suc n) = held-make_workers n

  pub any_exited-make_workers : (n : ℕ) → any_exited (make_workers {T = T} {S = S} n) ≡ false
  unfolding any_exited make_workers
  any_exited-make_workers zero = refl
  any_exited-make_workers (suc n) = any_exited-make_workers n

  pub length-make_workers : (n : ℕ) → length (make_workers {T = T} {S = S} n) ≡ n
  unfolding make_workers
  length-make_workers zero = refl
  length-make_workers (suc n) = ap suc (length-make_workers n)
