-- ===== src/Enemy/Context/Tests.antt =====
-- The third semaphore of P2 cannot be made: the first two stay.
use pacman_posix.Prelude.{ℕ, ◌≡◌, refl, true, false, ◌==◌, not}
use pacman_posix.Prelude.Int.{pos}
use pacman_posix.Posix.{World, ok, error}
use pacman_posix.Shared.{zeroed}
use pacman_posix.Enemy.{EnemyContext}
use pacman_posix.Enemy.Context.{context_init, init_mutexes, init_semaphores, context_destroy}
use pacman_posix.Enemy.Context.Objects.{Initialized, context_init-Initialized}

abbrev failing : World EnemyContext
failing = record {
  at = record {
    shared = zeroed;
    pacman_position = record { x = pos 0; y = pos 0 };
    ghosts = λ _. record { x = pos 0; y = pos 0 };
  };
  live = λ _. false;
  held = λ _. false;
  calls = 0;
  succeeds = λ n. not (n == 5);
}

leaves_semaphores :
    ((context_init failing).0 ≡ error)
    × ((context_init failing).1.live 20 ≡ true)
    × ((context_init failing).1.live 21 ≡ true)
    × ((context_init failing).1.live 17 ≡ false)
unfolding context_init init_mutexes init_semaphores
leaves_semaphores = (refl, refl, refl, refl)

context_init-Initialized_example :
    Initialized (context_init failing)
    × ((context_init failing).0 ≡ ok tt
        → (o : ℕ) → (context_destroy (context_init failing).1).1.live o ≡ false)
context_init-Initialized_example = context_init-Initialized failing (λ o. refl)
