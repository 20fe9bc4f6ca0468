-- ===== src/Main/Exit.antt =====
-- What is left when `main` returns.
use pacman_posix.Prelude.{ℕ, ◌≤◌, ◌≡◌, ◌⊎◌, Bool, true, false, ◌||◌}
use pacman_posix.Map.{Map}
use pacman_posix.Posix.{M, World, Status, ok, error, stuck}
use pacman_posix.Shared.Memory.{SharedMemory}
use pacman_posix.Shared.Memory.Create.{is_memory}
use pacman_posix.Scheduler.{Scheduler, scheduler_request_shutdown}
use pacman_posix.Processes.{processes_wait}
use pacman_posix.Processes.Wait.{is_child}
use pacman_posix.Main.{System, on_processes, on_scheduler, zeroed_system}

abbrev pub Result : Type 0
Result = Status (Unit {0}) × World System

-- What `main` works with, seen as what a part of it works with.
abbrev seen : {S : Type 0} → S → World System → World S
seen x w = record { at = x; live = w.live; held = w.held; calls = w.calls; succeeds = w.succeeds }

-- `main` has begun, and its shared memory is that of `v`.
abbrev with_memory : World System → World SharedMemory → World System
with_memory w v = record {
  at = record (zeroed_system w.at) { shared = v.at };
  live = v.live;
  held = v.held;
  calls = v.calls;
  succeeds = v.succeeds;
}

-- A call that gives something back has failed.
abbrev pub has_failed : System → Bool
has_failed s = s.shared.release_failed || s.processes.wait_failed

-- Of what exists outside the shared memory, all was there before.
abbrev pub NothingNew : World System → World System → Type 0
NothingNew w v = (o : ℕ) → 24 ≤ o → v.live o ≡ true → w.live o ≡ true

module _ (run : M Scheduler (Unit {0})) where
  -- What `main` can wait in for ever: the scheduler, the request for the end, or a child that it has
  -- started.
  abbrev pub Blocks : World System → Type 0
  Blocks v =
      ((on_scheduler run v).0 ≡ stuck)
      ⊎ ((on_scheduler scheduler_request_shutdown v).0 ≡ stuck)
      ⊎ ((on_processes processes_wait v).0 ≡ stuck)
        × ((v.at.processes.pacman_started || v.at.processes.enemy_started) ≡ true)

  -- How `main` can end.
  pub data Exited (w : World System) : Result → Type 0 where
    succeeded : {r : Result} → r.0 ≡ ok tt → NothingNew w r.1 → Exited w r
    failed : {r : Result} → r.0 ≡ error → (has_failed r.1.at ≡ true) ⊎ NothingNew w r.1 → Exited w r
    hung : {r : Result} (v : World System) → r.0 ≡ stuck → Blocks v → Exited w r

  -- The shared memory exists, and besides only the children, and what was there before.
  record IsOpen (w v : World System) : Type 0 where
    fd : v.at.shared.fd_open ≡ true
    mapped : v.at.shared.is_mapped ≡ true
    named : v.at.shared.is_named ≡ true
    calm : v.at.processes.wait_failed ≡ false
    only :
        (o : ℕ)
        → 24 ≤ o
        → v.live o ≡ true
        → (is_memory o || is_child v.at.processes o || w.live o) ≡ true

  -- The children too are gone, unless `waitpid` failed.
  record IsAlone (w v : World System) : Type 0 where
    fd : v.at.shared.fd_open ≡ true
    mapped : v.at.shared.is_mapped ≡ true
    named : v.at.shared.is_named ≡ true
    only :
        (v.at.processes.wait_failed ≡ true)
        ⊎ ((o : ℕ) → 24 ≤ o → v.live o ≡ true → (is_memory o || w.live o) ≡ true)
