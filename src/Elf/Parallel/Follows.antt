-- ===== src/Elf/Parallel/Follows.antt =====
-- The owner's steps in a run of the program.
use autobuild.Base.{true, List, [], ◌∷◌, ◌++◌, ◌≡◌, ap, arith, Bytes, equal_iff, equal_refl}
use autobuild.Elf.Parallel.{follows}
use autobuild.ThreadPool.{Action, enqueues, stops, takes, works, finishes, exits}
use autobuild.ThreadPool.Completion.{all_of_workers}
use autobuild.ThreadPool.Owner.{by_owner, by_owner-workers, fills}

pub follows-by_owner :
    (steps : List (Action Bytes)) (srcs : List Bytes)
    → follows srcs steps ≡ true
    → by_owner steps ≡ fills srcs
unfolding follows
follows-by_owner [] [] h = absurd cc
follows-by_owner [] (src ∷ srcs) h = absurd cc
follows-by_owner (takes k ∷ steps) srcs h = follows-by_owner steps srcs h
follows-by_owner (works k ∷ steps) srcs h = follows-by_owner steps srcs h
follows-by_owner (finishes k ∷ steps) srcs h = follows-by_owner steps srcs h
follows-by_owner (exits k ∷ steps) srcs h = follows-by_owner steps srcs h
follows-by_owner (stops ∷ steps) [] h = ap (◌∷◌ stops) (by_owner-workers steps h)
follows-by_owner (stops ∷ steps) (src ∷ srcs) h = absurd cc
follows-by_owner (enqueues path ∷ steps) [] h = absurd cc
follows-by_owner (enqueues path ∷ steps) (src ∷ srcs) h =
    ground (arith, equal_iff src path, follows-by_owner steps srcs)

pub follows-fills :
    (srcs : List Bytes) (steps : List (Action Bytes))
    → all_of_workers steps ≡ true
    → follows srcs (fills srcs ++ steps) ≡ true
unfolding follows
follows-fills [] steps h = h
follows-fills (src ∷ srcs) steps h = ground (arith, equal_refl src, follows-fills srcs steps h)
