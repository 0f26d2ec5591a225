-- ===== src/ThreadPool/Held.antt =====
-- What the tasks that are worked on have done to what is shared.
use autobuild.Base.{
  ℕ, zero, suc, Bool, true, false, not, ◌||◌, List, [], ◌∷◌, some, ℤ, is_zero, ◌≡◌, refl, sym, ap,
  ◌∙◌, subst, get_elem?, or_comm, or_false, or_assoc,
}
use autobuild.ThreadPool.{
  Work, ended, hanging, access, Worker, waiting, holding, exited, set_worker, make_workers,
  all_exited,
}

-- Whether the status of some work, if it comes to an end, is another one than 0: it does not depend
-- on what the work finds.
abbrev pub Fails : {S : Type 0} → Work S → Bool → Type 0
Fails (ended status) b = not (is_zero status) ≡ b
Fails hanging b = Unit
Fails {S} (access change next) b = (s : S) → Fails (next s) b

-- `see` is a fact about what is shared, which no access makes untrue, and `b` whether the work, if it
-- comes to an end, has made it true.
abbrev pub Adds : {S : Type 0} → (S → Bool) → Work S → Bool → Type 0
Adds see (ended status) b = b ≡ false
Adds see hanging b = Unit
Adds {S} see (access change next) b =
    (c : Bool) × ((s : S) → see (change s) ≡ (see s || c))
    × ((s : S) → (d : Bool) × Adds see (next s) d × (b ≡ (c || d)))

module _ {T : Type 0} {S : Type 0} (see : S → Bool) (adds fails : T → Bool) where
  -- `b` is whether the work done so far on the tasks that workers hold has made the fact true.
  abbrev pub HeldAdds : List (Worker T S) → Bool → Type 0
  HeldAdds [] b = b ≡ false
  HeldAdds (waiting ∷ ws) b = HeldAdds ws b
  HeldAdds (exited ∷ ws) b = HeldAdds ws b
  HeldAdds (holding task work ∷ ws) b =
      (c : Bool) × (d : Bool) × (e : Bool) × Adds see work d
      × (adds task ≡ (c || d))
      × Fails work (fails task)
      × HeldAdds ws e
      × (b ≡ (c || e))

  pub HeldAdds-make_workers : (n : ℕ) → HeldAdds (make_workers n) false
  unfolding make_workers
  HeldAdds-make_workers zero = refl
  HeldAdds-make_workers (suc n) = HeldAdds-make_workers n

  pub HeldAdds-all_exited :
      (ws : List (Worker T S)) (b : Bool) → all_exited ws ≡ true → HeldAdds ws b → b ≡ false
  unfolding all_exited
  HeldAdds-all_exited [] b x h = h
  HeldAdds-all_exited (exited ∷ ws) b x h = HeldAdds-all_exited ws b x h
  HeldAdds-all_exited (waiting ∷ ws) b x h = absurd cc
  HeldAdds-all_exited (holding task work ∷ ws) b x h = absurd cc

  pub HeldAdds-exit :
      (k : ℕ) (ws : List (Worker T S)) (b : Bool)
      → get_elem? ws k ≡ some waiting
      → HeldAdds ws b
      → HeldAdds (set_worker k exited ws) b
  unfolding set_worker
  HeldAdds-exit k [] b e h = h
  HeldAdds-exit zero (waiting ∷ ws) b e h = h
  HeldAdds-exit zero (exited ∷ ws) b e h = h
  HeldAdds-exit zero (holding task work ∷ ws) b e h = absurd cc
  HeldAdds-exit (suc k) (waiting ∷ ws) b e h = HeldAdds-exit k ws b e h
  HeldAdds-exit (suc k) (exited ∷ ws) b e h = HeldAdds-exit k ws b e h
  HeldAdds-exit (suc k) (holding task work ∷ ws) b e (c, d, f, a, q, w, rest, same) =
      (c, d, f, a, q, w, HeldAdds-exit k ws f e rest, same)

  pub HeldAdds-take :
      (k : ℕ) (task : T) (work : Work S) (ws : List (Worker T S)) (b : Bool)
      → Adds see work (adds task)
      → Fails work (fails task)
      → get_elem? ws k ≡ some waiting
      → HeldAdds ws b
      → HeldAdds (set_worker k (holding task work) ws) b
  unfolding set_worker
  HeldAdds-take k task work [] b m w e h = h
  HeldAdds-take zero task work (waiting ∷ ws) b m w e h = (false, adds task, b, m, refl, w, h, refl)
  HeldAdds-take zero task work (exited ∷ ws) b m w e h = absurd cc
  HeldAdds-take zero task work (holding other work' ∷ ws) b m w e h = absurd cc
  HeldAdds-take (suc k) task work (waiting ∷ ws) b m w e h = HeldAdds-take k task work ws b m w e h
  HeldAdds-take (suc k) task work (exited ∷ ws) b m w e h = HeldAdds-take k task work ws b m w e h
  HeldAdds-take (suc k) task work (holding other work' ∷ ws) b m w e
        (c, d, f, a, q, v, rest, same) =
      (c, d, f, a, q, v, HeldAdds-take k task work ws f m w e rest, same)

  -- An access makes the fact true for the pool just if it does so for the tasks that are held.
  pub HeldAdds-work :
      (k : ℕ) (task : T) (change : S → S) (next : S → Work S) (ws : List (Worker T S)) (b : Bool)
      (s : S)
      → get_elem? ws k ≡ some (holding task (access change next))
      → HeldAdds ws b
      → (c : Bool) × (b' : Bool) × (see (change s) ≡ (see s || c))
        × HeldAdds (set_worker k (holding task (next s)) ws) b'
        × (b' ≡ (b || c))
  unfolding set_worker
  HeldAdds-work k task change next [] b s e h = absurd cc
  HeldAdds-work zero task change next (waiting ∷ ws) b s e h = absurd cc
  HeldAdds-work zero task change next (exited ∷ ws) b s e h = absurd cc
  HeldAdds-work zero task change next (holding other work ∷ ws) b s e
        (c, d, f, a, q, v, rest, same) =
      let (is_task, is_work) : (other ≡ task) × (work ≡ access change next) = (cc, cc) in
      let (c', grows, left) = subst (λ w. Adds see w d) is_work a in
      let (d', a', q') = left s in
      let v' : (s : S) → Fails (next s) (fails other) =
        subst (λ w. Fails w (fails other)) is_work v in
      (
        c',
        (c || c') || f,
        grows s,
        (
          c || c',
          d',
          f,
          a',
          ap adds (sym is_task) ∙ q ∙ ap (◌||◌ c) q' ∙ or_assoc c c' d',
          subst (λ t. Fails (next s) (fails t)) is_task (v' s),
          rest,
          refl,
        ),
        or_move c c' f ∙ ap (λ x. x || c') (sym same),
      )
    where
      or_move : (x y z : Bool) → ((x || y) || z) ≡ ((x || z) || y)
      or_move true y z = refl
      or_move false y z = or_comm y z
  HeldAdds-work (suc k) task change next (waiting ∷ ws) b s e h =
      HeldAdds-work k task change next ws b s e h
  HeldAdds-work (suc k) task change next (exited ∷ ws) b s e h =
      HeldAdds-work k task change next ws b s e h
  HeldAdds-work (suc k) task change next (holding other work ∷ ws) b s e
        (c, d, f, a, q, v, rest, same) =
      let (c', f', grows, held, more) = HeldAdds-work k task change next ws f s e rest in
      (
        c',
        c || f',
        grows,
        (c, d, f', a, q, v, held, refl),
        ap (◌||◌ c) more ∙ or_assoc c f c' ∙ ap (λ x. x || c') (sym same),
      )

  pub HeldAdds-finish :
      (k : ℕ) (task : T) (status : ℤ) (ws : List (Worker T S)) (b : Bool)
      → get_elem? ws k ≡ some (holding task (ended status))
      → HeldAdds ws b
      → (e : Bool) × HeldAdds (set_worker k waiting ws) e
        × (b ≡ (e || adds task))
        × (not (is_zero status) ≡ fails task)
  unfolding set_worker
  HeldAdds-finish k task status [] b e h = absurd cc
  HeldAdds-finish zero task status (waiting ∷ ws) b e h = absurd cc
  HeldAdds-finish zero task status (exited ∷ ws) b e h = absurd cc
  HeldAdds-finish zero task status (holding other work ∷ ws) b e (c, d, f, a, q, v, rest, same) =
      let (is_task, is_work) : (other ≡ task) × (work ≡ ended status) = (cc, cc) in
      let none_left : d ≡ false = subst (λ w. Adds see w d) is_work a in
      let all_done : adds task ≡ c =
        ap adds (sym is_task) ∙ q ∙ ap (◌||◌ c) none_left ∙ or_false c in
      (
        f,
        rest,
        same ∙ or_comm c f ∙ ap (◌||◌ f) (sym all_done),
        subst (λ w. Fails w (fails other)) is_work v ∙ ap fails is_task,
      )
  HeldAdds-finish (suc k) task status (waiting ∷ ws) b e h = HeldAdds-finish k task status ws b e h
  HeldAdds-finish (suc k) task status (exited ∷ ws) b e h = HeldAdds-finish k task status ws b e h
  HeldAdds-finish (suc k) task status (holding other work ∷ ws) b e (c, d, f, a, q, v, rest, same) =
      let (f', held, made, failed) = HeldAdds-finish k task status ws f e rest in
      (
        c || f',
        (c, d, f', a, q, v, held, refl),
        same ∙ ap (◌||◌ c) made ∙ or_assoc c f' (adds task),
        failed,
      )
