-- ===== src/Main.antt =====
-- src/main.c: P0 from its arguments to its exit status; `ok` is EXIT_SUCCESS, `error` is EXIT_FAILURE.
pub mod Outside
pub mod Exit
pub mod Ticks
mod Tests
use pacman_posix.Prelude.{
  ℕ, ◌≤◌, ◌≡◌, Bool, true, false, ◌||◌, not, List, [], ◌∷◌, Option, none, some, ◌-◌, ◌^◌,
  if◌then◌else◌,
}
use pacman_posix.Prelude.Int.{ℤ, pos, leb_ℤ, ltb_ℤ}
use pacman_posix.Text.{Bytes, codes, strtol, at_end}
use pacman_posix.Environment.{FileSystem}
use pacman_posix.Movement.{Loaded, loaded, failed, movement_load_file}
use pacman_posix.Map.{Map, empty_map, Checked, accepted, rejected, map_load}
use pacman_posix.Posix.{M, World, Status, ok, error, stuck, ◌>>◌, raise, modify, zoom}
use pacman_posix.Shared.{Environ, shared_state_initialize, zeroed}
use pacman_posix.Shared.Memory.{
  SharedMemory, on_shared, shared_memory_create, shared_memory_release,
}
use pacman_posix.Scheduler.{Scheduler, scheduler_init, scheduler_request_shutdown}
use pacman_posix.Processes.{ProcessHandles, processes_start, processes_wait}

abbrev int_max : ℤ
int_max = pos (2 ^ 31 - 1)

-- `none` where `parse_max_ticks` returns PACMAN_ERROR.
unfoldable pub parse_max_ticks : Bytes → Option ℤ
parse_max_ticks text =
    let r = strtol text in
    if r.range_error
      || r.no_digits
      || not (at_end r.rest)
      || leb_ℤ r.value (pos 0)
      || ltb_ℤ int_max r.value
    then none
    else some r.value

abbrev pub or_fail : Loaded → Option (List ℕ) → Option (List ℕ)
or_fail (failed e) rest = none
or_fail (loaded count) none = none
or_fail (loaded count) (some counts) = some (count ∷ counts)

-- The counts of the files, or `none` where `load_movements` returns PACMAN_ERROR.
unfoldable pub load_movements : FileSystem → Bytes → List Bytes → Option (List ℕ)
load_movements files case_dir [] = some []
load_movements files case_dir (name ∷ names) =
    or_fail (movement_load_file files case_dir name) (load_movements files case_dir names)

abbrev pub movement_inputs : List Bytes
movement_inputs =
    codes "pacman_moves.txt"
    ∷ codes "ghost_1_moves.txt"
    ∷ codes "ghost_2_moves.txt"
    ∷ codes "ghost_3_moves.txt"
    ∷ codes "ghost_4_moves.txt"
    ∷ []

-- The variables of `main`; the `state` of the scheduler is that of the shared memory.
pub record System : Type 0 where
  pub shared : SharedMemory
  pub scheduler : Scheduler
  pub processes : ProcessHandles

abbrev pub on_memory : M SharedMemory (Unit {0}) → M System (Unit {0})
on_memory = zoom (λ s. s.shared) (λ m s. record s { shared = m })

abbrev pub on_scheduler : M Scheduler (Unit {0}) → M System (Unit {0})
on_scheduler =
    zoom (λ s. record s.scheduler { state = s.shared.state })
      (λ c s. record s { scheduler = c; shared = record s.shared { state = c.state } })

abbrev pub on_processes : M ProcessHandles (Unit {0}) → M System (Unit {0})
on_processes = zoom (λ s. s.processes) (λ p s. record s { processes = p })

abbrev pub checked :
    Status (Unit {0}) → M System (Unit {0}) → M System (Unit {0}) → M System (Unit {0})
checked (ok u) c k v = k v
checked error c k v = c v
checked stuck c k v = (stuck, v)

-- `if (m != PACMAN_OK) { c } k` where `c` returns.
abbrev pub check :
    M System (Unit {0}) → M System (Unit {0}) → M System (Unit {0}) → M System (Unit {0})
check m c k w = checked (m w).0 c k (m w).1

-- `m; k`, the result of `m` not looked at.
abbrev pub anyway : M System (Unit {0}) → M System (Unit {0}) → M System (Unit {0})
anyway m k w = checked (m w).0 k k (m w).1

-- `shared_memory_release(&shared); return EXIT_FAILURE;`
abbrev pub close_down : M System (Unit {0})
close_down = anyway (on_memory shared_memory_release) raise

abbrev pub shut_down : M System (Unit {0})
shut_down =
    anyway (on_scheduler scheduler_request_shutdown)
      (anyway (on_processes processes_wait) close_down)

abbrev pub zeroed_system : System → System
zeroed_system s = record {
  shared = record {
    state = s.shared.state;
    fd_open = false;
    sync_initialized = false;
    is_mapped = false;
    is_named = false;
    release_failed = false;
  };
  scheduler = scheduler_init zeroed;
  processes = record { pacman_started = false; enemy_started = false; wait_failed = false };
}

-- `shared.sync_initialized = 1;` and `scheduler_init`.
abbrev pub ready : System → System
ready s = record s {
  shared = record s.shared { sync_initialized = true };
  scheduler = scheduler_init s.shared.state;
}

-- `run` is `scheduler_run`.
module _ (run : M Scheduler (Unit {0})) where
  unfoldable pub play : M System (Unit {0})
  play = check (on_processes processes_start) shut_down (
      check (on_scheduler run) shut_down
        (check (on_processes processes_wait) close_down (on_memory shared_memory_release)))

  unfoldable pub set_up : Environ → Map → ℤ → M System (Unit {0})
  set_up getenv map max_ticks = check (on_memory shared_memory_create) raise (
      check (on_memory (on_shared (shared_state_initialize getenv map max_ticks))) close_down
        (modify ready >> play))

  abbrev pub with_moves : Option (List ℕ) → Environ → Map → ℤ → M System (Unit {0})
  with_moves none getenv map max_ticks = raise
  with_moves (some counts) getenv map max_ticks = set_up getenv map max_ticks

  abbrev pub with_map : Checked Map → Environ → FileSystem → Bytes → ℤ → M System (Unit {0})
  with_map (rejected e) getenv files case_dir max_ticks = raise
  with_map (accepted map) getenv files case_dir max_ticks =
      with_moves (load_movements files case_dir movement_inputs) getenv map max_ticks

  abbrev pub with_ticks : (ℕ → Bool) → Option ℤ → Environ → FileSystem → Bytes → M System (Unit {0})
  with_ticks memory none getenv files case_dir = raise
  with_ticks memory (some max_ticks) getenv files case_dir =
      with_map (map_load memory files case_dir empty_map) getenv files case_dir max_ticks

  -- `argv` with the name of the program first; `memory` is what `malloc` does in `map_load`.
  unfoldable pub main : (ℕ → Bool) → Environ → FileSystem → List Bytes → M System (Unit {0})
  main memory getenv files (program ∷ case_dir ∷ max_ticks ∷ []) =
      modify zeroed_system >> with_ticks memory (parse_max_ticks max_ticks) getenv files case_dir
  main memory getenv files argv = modify zeroed_system >> raise
