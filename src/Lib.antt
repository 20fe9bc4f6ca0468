-- ===== src/Lib.antt =====
-- Verification of pacman-posix, a game of Pac-Man that runs as three POSIX processes which share
-- memory: P0 (src/scheduler.c) gives the turns and counts ticks and lives, P1 (src/pacman.c) moves
-- Pac-Man, P2 (src/enemy.c) moves the ghosts.
--
-- The parts, and the files that model them:
--   Prelude     what all files share: tests, lists, signed integers over the native numbers
--   Text        C strings, lines as `fgets` gives them, `strtol`
--   Environment the files of a case directory, and `build_path`
--   Common      include/common.h
--   Movement    src/movement.c: P0 checks the movement files before the game
--   Map         src/map.c, include/map.h: P0 reads and checks the board
--   Posix       mutexes, semaphores and calls that fail, as one thread sees them
--   Shared      src/shared.c, include/shared.h: the shared state and its start
--               Shared/Memory: `shared_memory_create` and `shared_memory_release`
--   Scheduler   src/scheduler.c, include/scheduler.h: requests, choice, collisions, ticks, dry run
--               Scheduler/Runtime: the four threads of `scheduler_run` as steps that interleave
--   Processes   src/processes.c: the two children, started and waited for
--   Chain       the linked lists of src/pacman.c and src/enemy.c: nodes, `malloc`, `free`
--   Pacman      src/pacman.c: the instructions of P1 and how one is carried out
--               Pacman/Queue: the queue between the reader and the executor, and the reader
--               Pacman/Threads: the three threads of `pacman_process_run` as steps that interleave
--   Enemy       src/enemy.c: the ghosts' instructions and moves, and the collisions of P2
--               Enemy/Instructions: the list of instructions of a ghost
--               Enemy/Context: the mutexes and semaphores of P2
--               Enemy/Helpers, Enemy/Threads: the seven threads of `enemy_process_run` as steps
--   Main        src/main.c: the arguments, what is set up and taken down, the exit status
--
-- P0 reads the board (Map) and the movement files (Movement), makes the shared state (Shared) and
-- starts P1 and P2. In every tick P0 takes over the requested priorities, chooses a process, waits
-- for its turn and then takes a life if P2 has published a collision (Scheduler). P1 reads its own
-- movement file again, with its own parser, and carries one instruction out at a turn (Pacman). P2
-- does the same for four ghosts, compares their cells with Pac-Man's and publishes a collision in
-- the shared state (Enemy).
--
-- `main` (Main) makes the shared memory (Shared/Memory), starts the two children (Processes), runs
-- the scheduler, waits for the children and gives everything back. P1 and P2 start their threads; a
-- turn that P0 gives passes through them by semaphores and comes back (Pacman/Threads,
-- Enemy/Threads).
--
-- How the code is modelled. A function of the source is a definition with its name. A function that
-- reads files takes the file system as an argument; one that allocates takes whether there is
-- memory, or what `malloc` returns. A function that locks, or that calls the system, is a function on
-- `World` (Posix): the data, the objects that exist (also the shared memory and the children), the
-- mutexes held, and for each call whether it succeeds, so that a theorem over all worlds is one over
-- all failures. `error` is PACMAN_ERROR; `stuck` is a thread that waits for a mutex which it holds
-- itself or for a semaphore that only another thread can post, or that follows a dangling pointer.
-- What stands between a lock and its unlock is a function on the data (`lose_life`, `advance_tick`,
-- `move`). A flag that the C code keeps as an int is a Bool; the position and the clock are signed
-- integers, a `size_t` a natural number, and the conversion of a row number to int wraps (`to_int`).
--
-- The threads of P0 (Scheduler/Runtime), of P1 (Pacman/Threads) and of P2 (Enemy/Threads) are step
-- relations: a step is one critical section or one call on a semaphore, a wait on a condition
-- variable or a semaphore is a step that is not there until it would return, and a call that fails
-- before it has an effect makes its thread give up as the code does; where the code ignores the
-- failure (`queue_request_stop`, `queue_mark_reader_done`) the thread goes on without the rest. Some
-- failures are left out: a semaphore call of P2's controller that fails, a failed lock within P2's
-- `request_stop` or P0's `runtime_mark_error`, and an unlock that fails, after which the mutex would
-- stay locked. `waitpid` may return, fail or wait for ever: which, is chosen from outside.
--
-- Bounds and fuel. Only the loop of `scheduler_run_dry` runs on fuel: one more than the ticks that
-- are left. All other loops are structural.
--
-- Not modelled: the messages to the console; the creation and joining of the threads, and the
-- objects that P0's threads and P1 make for themselves; a `waitpid` or a semaphore call that a
-- signal interrupts, since the code repeats it. `scheduler_run` is an argument of `main`.
pub mod Prelude
pub mod Text
pub mod Environment
pub mod Common
pub mod Movement
pub mod Map
pub mod Posix
pub mod Chain
pub mod Shared
pub mod Scheduler
pub mod Processes
pub mod Pacman
pub mod Enemy
pub mod Main
