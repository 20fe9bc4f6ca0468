-- ===== src/Shared/Memory.antt =====
-- src/shared.c: the memory that the processes share, how it is made and given back.
pub mod Release
pub mod Create
mod Tests
use pacman_posix.Prelude.{Bool, true, false}
use pacman_posix.Posix.{
  Object, M, ◌>>◌, raise, on_error, modify, when, call, init, destroy, create, ignore, also, zoom,
  shared_name, shared_descriptor, shared_mapping,
}
use pacman_posix.Shared.{SharedState, destroy_sync_objects}

-- `SharedMemory` and the state that it points to: `fd_open` is `fd != -1`, `is_mapped` is
-- `state != NULL`, `is_named` is `name != NULL`. `release_failed` is whether a call that gives
-- something back has failed, which the code reports by `perror`.
pub record SharedMemory : Type 0 where
  pub state : SharedState
  pub fd_open : Bool
  pub sync_initialized : Bool
  pub is_mapped : Bool
  pub is_named : Bool
  pub release_failed : Bool

abbrev pub on_shared : M SharedState (Unit {0}) → M SharedMemory (Unit {0})
on_shared = zoom (λ m. m.state) (λ s m. record m { state = s })

-- A call that gives an object back.
abbrev pub give_back : Object → M SharedMemory (Unit {0})
give_back o =
    on_error (call >> destroy o) ((modify λ m. record m { release_failed = true }) >> raise)

abbrev pub release_objects : M SharedMemory (Unit {0})
release_objects w =
    when w.at.sync_initialized
      (on_shared destroy_sync_objects >> (modify λ m. record m { sync_initialized = false })) w

abbrev pub release_state : M SharedMemory (Unit {0})
release_state w =
    when w.at.is_mapped
      (release_objects
        >> also (give_back shared_mapping) (modify λ m. record m { is_mapped = false }))
      w

abbrev pub release_fd : M SharedMemory (Unit {0})
release_fd w =
    when w.at.fd_open
      (also (give_back shared_descriptor) (modify λ m. record m { fd_open = false })) w

-- `shm_unlink`; that there is no such name is no error.
abbrev pub release_name : M SharedMemory (Unit {0})
release_name w = when w.at.is_named (give_back shared_name) w

unfoldable pub shared_memory_release : M SharedMemory (Unit {0})
unfolding destroy_sync_objects
shared_memory_release = also (also release_state release_fd) release_name

abbrev pub before_create : SharedMemory → SharedMemory
before_create m = record m {
  fd_open = false;
  sync_initialized = false;
  is_mapped = false;
  is_named = true;
}

-- Behind the check of a call: `shared_memory_release(shared); return PACMAN_ERROR;`
abbrev pub or_release : M SharedMemory (Unit {0}) → M SharedMemory (Unit {0})
or_release m = on_error m (ignore shared_memory_release >> raise)

-- The call with O_CREAT and O_EXCL makes the name and the descriptor.
abbrev pub open_shared : M SharedMemory (Unit {0})
open_shared = init shared_name >> create shared_descriptor

-- The first call is `shm_unlink`, where that there is no such name is no error; the one after
-- `open_shared` is `ftruncate`, and the last one `mmap`.
unfoldable pub shared_memory_create : M SharedMemory (Unit {0})
shared_memory_create =
    modify before_create
    >> call
    >> destroy shared_name
    >> open_shared
    >> (modify λ m. record m { fd_open = true })
    >> or_release call
    >> or_release (init shared_mapping)
    >> (modify λ m. record m { is_mapped = true })
