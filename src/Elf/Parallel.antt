-- ===== src/Elf/Parallel.antt =====
-- `ELFWorkerPool` and `elf_copy_debug_symbols_parallel` of native/abnativeelf.cpp, on the thread
-- pool. The order in which the threads go on is an argument: the steps of the pool.
pub mod Files
pub mod Follows
pub mod Schedule
use autobuild.Base.{
  ℕ, Bool, true, false, not, ◌&&◌, List, [], ◌∷◌, ◌++◌, map, if◌then◌else◌, Option, none, some,
  Outcome, done, fault, spin, Bytes, emplace, insert_all, equal, ℤ, pos,
}
use autobuild.Elf.Identify.{ElfParseResult}
use autobuild.Elf.Strip.{Flags, elf_copy_debug_symbols}
use autobuild.ThreadPool.Completion.{all_of_workers}
use autobuild.ThreadPool.{
  Work, ended, hanging, access, Pool, Action, enqueues, stops, takes, works, finishes, exits,
  constructed, run, all_exited,
}

-- What `open`, `fstat` and `identify_binary_data` give for the file at a path.
pub record File : Type 0 where
  pub opened : Bool
  pub measured : Bool
  pub identified : Outcome ElfParseResult

-- What `recursive_directory_iterator` gives for a directory.
pub record Entry : Type 0 where
  pub path : Bytes
  pub is_regular_file : Bool
  pub is_symlink : Bool

-- `m_sodeps` and `m_sonames`.
pub record Sets : Type 0 where
  pub sodeps : List Bytes
  pub sonames : List Bytes

-- The entries of one directory that are queued.
unfoldable pub queued_in : List Entry → List Bytes
queued_in [] = []
queued_in (e ∷ es) =
    let rest = queued_in es in if e.is_regular_file && not e.is_symlink then e.path ∷ rest else rest

unfoldable pub queued : List (List Entry) → List Bytes
queued [] = []
queued (d ∷ ds) = queued_in d ++ queued ds

-- What the thread that owns the pool does with it.
unfoldable pub owner_steps : List (List Entry) → List (Action Bytes)
owner_steps directories = map enqueues (queued directories) ++ (stops ∷ [])

-- Whether the steps are those of a run of the program: the owner's are those above, in their order,
-- with the steps of workers between them.
unfoldable pub follows : List Bytes → List (Action Bytes) → Bool
follows srcs (takes k ∷ steps) = follows srcs steps
follows srcs (works k ∷ steps) = follows srcs steps
follows srcs (finishes k ∷ steps) = follows srcs steps
follows srcs (exits k ∷ steps) = follows srcs steps
follows (src ∷ srcs) (enqueues path ∷ steps) = equal src path && follows srcs steps
follows [] (stops ∷ steps) = all_of_workers steps
follows (src ∷ srcs) (stops ∷ steps) = false
follows [] (enqueues path ∷ steps) = false
follows srcs [] = false

-- The result, and the two sets of the caller.
pub record Copied : Type 0 where
  pub status : ℤ
  pub so_deps : List Bytes
  pub sonames : List Bytes

-- The part behind `wait_for_completion`.
unfoldable pub collect : Flags → Pool Bytes Sets → List Bytes → List Bytes → Copied
collect flags pool so_deps sonames = record {
  status = if pool.has_error then pos 1 else pos 0;
  so_deps = if flags.find_so_deps then insert_all pool.shared.sodeps so_deps else so_deps;
  sonames = if flags.find_sonames then insert_all pool.shared.sonames sonames else sonames;
}

-- `emplace` of each name, which takes the lock of the set of sonames each time.
unfoldable pub emplace_each : List Bytes → Work Sets → Work Sets
emplace_each [] rest = rest
emplace_each (name ∷ names) rest =
    access (λ sets. record sets { sonames = emplace name sets.sonames })
      λ sets. emplace_each names rest

-- The two sets are only put into, so that a file puts there what it makes of empty ones: its names one
-- by one, and its libraries at once. Then the programs are run on the file, on which the status
-- depends.
unfoldable pub worked : Outcome autobuild.Elf.Strip.Copied → Work Sets
worked (done c) = emplace_each c.sonames (
    access (λ sets. record sets { sodeps = insert_all c.symbols sets.sodeps })
      λ sets. ended c.status)
worked fault = hanging
worked spin = hanging

module _ (exec : List Bytes → ℕ) (files : Bytes → File) (symdir : Bytes) (flags : Flags) where
  -- The function that the workers run.
  unfoldable pub worker : Bytes → Work Sets
  worker src =
      let file = files src in
      worked (
        elf_copy_debug_symbols exec file.opened file.measured file.identified src symdir flags []
          [])

  -- `none` if the steps are not a run of the program that ends with all workers gone.
  unfoldable pub elf_copy_debug_symbols_parallel :
      List (List Entry) → ℕ → List (Action Bytes) → List Bytes → List Bytes → Option Copied
  elf_copy_debug_symbols_parallel directories thread_num steps so_deps sonames =
      if not (follows (queued directories) steps)
      then none
      else elim (run worker steps
          (constructed worker thread_num (record { sodeps = []; sonames = [] }))) [
            | none ↦ none
            | some pool ↦
                if all_exited pool.workers then some (collect flags pool so_deps sonames) else none
          ]
