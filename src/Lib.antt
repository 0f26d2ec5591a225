-- ===== src/Lib.antt =====
-- A model of the native part of autobuild4, the program that builds the packages of AOSC OS: the
-- C++ code under native/, which is compiled to a loadable bash extension, of which the shell scripts
-- under lib/, proc/ and the other directories call the builtins.
--
-- The parts and the files that model them:
--
-- - native/pm.cpp, `autobuild_to_deb_version`: one dependency in the notation of autobuild, such
--   as `glibc>=2.38`, in dpkg's. Pm holds the state machine over the characters, Pm/Reference a
--   description of it without states, Pm/Dependency what it does on dependencies. Pm/Builddep is the
--   builtin `abpm_dump_builddep_req` of native/abnativefunctions.cpp, Pm/Builddep/Lines its lines.
-- - native/abspiral.cpp, `insert_from_lut` and `spiral_from_sonames`: from the sonames of a
--   package, the names of the Debian packages it stands for. Spiral holds the two loops; the
--   generated table behind `lut_lookup` is a parameter. Spiral/Pieces is about the splitting of a
--   list of packages, Spiral/Provides about one package of it, Spiral/Lookup about the whole.
-- - native/abnativeelf.cpp: the ELF files of a package are identified, their symbols are saved
--   and they are stripped. Elf/Arch holds the names of architectures and `detect_architecture`,
--   Elf/Sections the walks over sections, Elf/Arm the build attributes of ARM, Elf/Identify
--   `identify_binary_data`, Elf/Paths the paths and Elf/Strip `elf_copy_debug_symbols`.
-- - native/threadpool.hpp, `ThreadPool`, and on it `elf_copy_debug_symbols_parallel` of
--   native/abnativeelf.cpp. ThreadPool holds the steps of the threads, ThreadPool/Steps,
--   ThreadPool/Workers and ThreadPool/Owner lemmas on them, ThreadPool/Held is about the tasks that
--   are worked on, ThreadPool/Tasks about what a run makes of its tasks, and ThreadPool/Completion
--   about the end of a run. Elf/Parallel
--   holds the function, Elf/Parallel/Files what one file adds, Elf/Parallel/Follows which steps are
--   its owner's, Elf/Parallel/Schedule the whole. Elf/Builtin is the builtin `abelf_copy_dbg` of
--   native/abnativefunctions.cpp, Elf/CopyAll `abelf_copy_dbg_parallel` and `elf_copy_to_symdir`.
-- - native/bashinterface.cpp and native/abnativefunctions.cpp, the code on the shell's variables and
--   files: Shell/Truth holds the words for true and false, Shell/Find the search for a file of the
--   package, Shell/Directory the loading of a directory of scripts, Shell/Variables the variables
--   with the suffix of an architecture or of a group, Shell/Modifiers `ab_parse_set_modifiers`,
--   Shell/Words the arguments of a builtin and the builtins that log them, Shell/Backtrace
--   `autobuild_get_backtrace`, Shell/Die `abdie`, Shell/Strict the strict mode, Shell/Arch `set_arch_variables`, Shell/Listing the
--   listing files that `ab_read_listing_file` reads, Shell/Archive `abpm_aosc_archive`,
--   Shell/Types `ab_typecheck`, and Shell/Load the builtins that look for a file and load it, such as
--   `arch_loaddefines`. Shell/Parallel is `abpp_parallelize`, which runs a function of the shell on
--   the thread pool; a call of the function is a sequence of accesses to the shell, each one step,
--   and Shell/Entry the builtin `autobuild` of native/autobuild.c. Each has the proofs in a module below.
-- - native/abnativefunctions.cpp, the builtins on bash's arrays: Shell/Array holds them, as changes
--   of elements in memory that lead to each other, Shell/Array/Ring says what a proper array is,
--   Shell/Array/Link and Shell/Array/Push are about one element, Shell/Array/Concat, Shell/Array/Mine
--   and Shell/Array/Join about the builtins `ab_concatarray`, `abmm_array_mine`,
--   `abmm_array_mine_remove` and `ab_join_elements`. Shell/Filter is `ab_filter_args`, on memory
--   that may have been given back, Shell/Filter/Freed what becomes of it.
-- - native/logger.cpp and native/logger.hpp: Logger holds the loggers, Logger/Diagnosis what they say
--   of a failure and Logger/Snippet the piece of a script that is shown with it.
-- - native/abjsondata.cpp: JsonData holds the groups of an architecture and the targets,
--   JsonData/Groups what they are.
-- - native/abserialize.cpp, and the builtin `abjson_get_item` on it: Serialize holds the queries and
--   both conversions, Serialize/Path queries that are written out from a path, Serialize/Number
--   whole numbers, Serialize/Variables a variable that is printed and read again, and Serialize/Item
--   the builtin.
--
-- The parts meet where the code's do: the parallel run uses the pool and the function for one
-- file, the function for one file the identification and the paths, and the identification the
-- walks over sections, the attributes and the architectures. The search for a file uses the words
-- for true and false. The end of the shell uses the backtrace, the words of a builtin and the
-- loggers, and so does the builtin for a JSON value, which uses the queries.
--
-- Base passes the names of the library on, with the helpers that the parts share. A module Tests
-- in a part holds a small input and what the statements say of it.
--
-- Conventions. A text is the list of its bytes. An `unordered_set` is a list without repetitions;
-- no statement depends on its order. `Option` stands for code that may read out of
-- bounds or throw, `none` being that; `Outcome` also has `spin`, for a loop that used up its fuel.
-- An ELF file is the record `ElfFile` of what libelf (not part of the repository) gives for it;
-- child processes are a function from their arguments to an exit status, and what
-- `elf_copy_debug_symbols` does is a list of events.
--
-- Bounds and fuel. Numbers are natural numbers; a word of 32 or 64 bits wraps where the source
-- lets it. The loop that splits a list of packages has the length of the text and one more as
-- fuel, which is enough. The attributes of ARM are read with as much fuel as the caller gives: the
-- inner loop ends with the size of the section as fuel, the outer one may not end with any.
--
-- The loops over bash's arrays and over words have fuel, one round for each element or word being
-- enough where they end; where they do not, no fuel is. `size_t` wraps at 2^64 in the piece of a
-- script and in a query, and the values of a dynamic section are cut to 32 bits.
--
-- A run of the thread pool is a list of steps, each of one thread; a run as long as it takes is an
-- argument, and there is no bound on it. What the shell does is a parameter too: `find_variable`
-- alone, or the record `Bash` with what is relied on in `Keeps`.
--
-- Memory that bash manages is a function from addresses to elements; that `array_create_element`
-- gives an address that is not in use is relied on in `IsCreator`. The JSON library is the record
-- `JsonLibrary`, with what is relied on in `IsStandard`.
--
-- Not modelled: the mapping of files and other calls of the operating system, the bash builtins
-- that are not named above, the reading and parsing of files, and the shell
-- scripts. Libelf, libc, bash, the JSON library and the table of sonames are parameters. A mutex is
-- modelled by taking what it guards as one step, and the one of a logger is left out. The condition
-- variable of the pool is not modelled: a thread that waits goes on when what it waits for is so. Each
-- access of a task to what the tasks share is one step, and other threads may go on between two.
pub mod Base
pub mod Elf
pub mod JsonData
pub mod Logger
pub mod Pm
pub mod Serialize
pub mod Shell
pub mod Spiral
pub mod ThreadPool
