-- ===== src/Enemy/Context.antt =====
-- src/enemy.c: the objects that P2 makes for its threads, and that it destroys.
pub mod Objects
mod Tests
use pacman_posix.Prelude.{ℕ, zero, suc, ◌+◌, update}
use pacman_posix.Posix.{
  M, ◌>>◌, pure, raise, on_error, modify, init, destroy, stop_mutex, ghost_mutex, pacman_mutex,
  tracker_requested, tracker_done, collision_requested, collision_done, turn_requested, turn_done,
}
use pacman_posix.Common.{ghost_count}
use pacman_posix.Enemy.{EnemyContext}

abbrev pub EnemyM : Type 0
EnemyM = M EnemyContext (Unit {0})

-- `ghost->position` from the shared state.
abbrev pub place_ghost : ℕ → EnemyContext → EnemyContext
place_ghost i c = record c {
  ghosts = update c.ghosts i (record { x = c.shared.ghost_x i; y = c.shared.ghost_y i });
}

-- Ghost `i`, counted from 0.
unfoldable pub init_ghost : ℕ → EnemyM
init_ghost i =
    modify (place_ghost i)
    >> init (turn_requested i)
    >> on_error (init (turn_done i)) (destroy (turn_requested i) >> raise)

abbrev pub destroy_ghost : ℕ → EnemyM
destroy_ghost i = destroy (turn_requested i) >> destroy (turn_done i)

-- `while (i > 0) { --i; destroy_ghost(&context->ghosts[i]); }`
unfoldable pub destroy_before : ℕ → EnemyM
destroy_before zero = pure tt
destroy_before (suc i) = destroy_ghost i >> destroy_before i

abbrev pub destroy_others : EnemyM
destroy_others =
    destroy collision_done
    >> destroy collision_requested
    >> destroy tracker_done
    >> destroy tracker_requested
    >> destroy pacman_mutex
    >> destroy ghost_mutex
    >> destroy stop_mutex

abbrev pub fail_ghost : ℕ → EnemyM
fail_ghost i = destroy_before i >> destroy_others >> raise

-- The loop of `context_init` from ghost `i` on, with `left` to go.
unfoldable pub init_ghosts : (left : ℕ) (i : ℕ) → EnemyM
init_ghosts zero i = pure tt
init_ghosts (suc left) i = on_error (init_ghost i) (fail_ghost i) >> init_ghosts left (i + 1)

-- `pacman_position` from the shared state.
abbrev pub place_pacman : EnemyContext → EnemyContext
place_pacman c = record c {
  pacman_position = record { x = c.shared.pacman_x; y = c.shared.pacman_y };
}

unfoldable pub init_mutexes : EnemyM
init_mutexes =
    init stop_mutex
    >> on_error (init ghost_mutex) (destroy stop_mutex >> raise)
    >> on_error (init pacman_mutex) (destroy ghost_mutex >> destroy stop_mutex >> raise)

unfoldable pub init_semaphores : EnemyM
init_semaphores =
    on_error
      (init tracker_requested
        >> init tracker_done
        >> init collision_requested
        >> init collision_done)
      (destroy pacman_mutex >> destroy ghost_mutex >> destroy stop_mutex >> raise)

unfoldable pub context_init : EnemyM
context_init = modify place_pacman >> init_mutexes >> init_semaphores >> init_ghosts ghost_count 0

-- The loop of `context_destroy` from ghost `i` on, with `left` to go.
unfoldable pub destroy_ghosts : (left : ℕ) (i : ℕ) → EnemyM
destroy_ghosts zero i = pure tt
destroy_ghosts (suc left) i = destroy_ghost i >> destroy_ghosts left (i + 1)

unfoldable pub context_destroy : EnemyM
context_destroy = destroy_ghosts ghost_count 0 >> destroy_others
