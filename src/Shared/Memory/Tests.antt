-- ===== src/Shared/Memory/Tests.antt =====
-- Making the shared memory where an earlier run has left the name and the mapping fails.
use pacman_posix.Prelude.{◌≡◌, true, false, ◌==◌, not}
use pacman_posix.Posix.{World}
use pacman_posix.Shared.{zeroed}
use pacman_posix.Shared.Memory.{SharedMemory, shared_memory_create, shared_memory_release}
use pacman_posix.Shared.Memory.Create.{Created, shared_memory_create-Created}
use pacman_posix.Shared.Memory.Release.{Released, shared_memory_release-Released}

abbrev stale : World SharedMemory
stale = record {
  at = record {
    state = zeroed;
    fd_open = false;
    sync_initialized = false;
    is_mapped = false;
    is_named = false;
    release_failed = false;
  };
  live = λ o. o == 24;
  held = λ _. false;
  calls = 0;
  succeeds = λ n. not (n == 3);
}

shared_memory_create-Created_example : Created stale (shared_memory_create stale)
shared_memory_create-Created_example = shared_memory_create-Created stale

abbrev full : World SharedMemory
full = record stale {
  at = record stale.at {
    fd_open = true;
    sync_initialized = true;
    is_mapped = true;
    is_named = true;
  };
  live = λ _. true;
}

shared_memory_release-Released_example :
    Released full (shared_memory_release full)
    × ((shared_memory_release full).1.at.fd_open ≡ false)
    × ((shared_memory_release full).1.at.is_mapped ≡ false)
shared_memory_release-Released_example = shared_memory_release-Released full
