-- ===== src/Shared/Tests.antt =====
-- The start of a game on the small board of `Map.Tests`.
use pacman_posix.Prelude.{
  ℕ, ◌≡◌, ◌⊎◌, ◌||◌, refl, Bool, true, false, none, some, if◌then◌else◌, leb, ◌==◌,
}
use pacman_posix.Prelude.Int.{pos}
use pacman_posix.Text.{codes, digits_value, is_digit, starts_with_digit}
use pacman_posix.Text.Number.{Digits}
use pacman_posix.Posix.{World, ok, error}
use pacman_posix.Map.Samples.{small_map, small_file, small_loads, files, memory}
use pacman_posix.Shared.{
  SharedState, zeroed, Environ, parse_priority_env, load_initial_priorities, is_too_big,
  copy_map_to_shared, initialize_mutexes, fail_semaphores, initialize_semaphores, prepare_state,
  prepare_objects, shared_state_initialize,
}
use pacman_posix.Shared.Priorities.{
  InRange, parse_priority_env-Digits, load_initial_priorities-InRange,
}
use pacman_posix.Shared.Start.{IsStart, shared_state_initialize-IsStart}
use pacman_posix.Shared.Objects.{
  AllClear, is_shared_mutex, is_shared_semaphore, shared_state_initialize_objects,
}

-- No variable is set.
abbrev no_environment : Environ
no_environment name = none

-- Nothing exists, and the calls succeed for which `succeeds` says so.
abbrev fresh : (ℕ → Bool) → World SharedState
fresh succeeds = record {
  at = zeroed;
  live = λ _. false;
  held = λ _. false;
  calls = 0;
  succeeds = succeeds;
}

abbrev all_succeed : ℕ → Bool
all_succeed n = true

-- `sem_init` fails for the second semaphore.
abbrev sixth_fails : ℕ → Bool
sixth_fails n = if n == 6 then false else true

defaults : load_initial_priorities no_environment ≡ some (pos 20, pos 30)
unfolding load_initial_priorities parse_priority_env
defaults = refl

starts : (shared_state_initialize no_environment small_map (pos 5) (fresh all_succeed)).0 ≡ ok tt
unfolding shared_state_initialize prepare_state prepare_objects copy_map_to_shared is_too_big
    initialize_mutexes initialize_semaphores load_initial_priorities parse_priority_env
starts = refl

fails : (shared_state_initialize no_environment small_map (pos 5) (fresh sixth_fails)).0 ≡ error
unfolding shared_state_initialize prepare_state prepare_objects copy_map_to_shared is_too_big
    initialize_mutexes initialize_semaphores load_initial_priorities parse_priority_env
    fail_semaphores
fails = refl

Digits-42 : Digits (codes "42")
unfolding starts_with_digit is_digit
Digits-42 = (refl, (refl, (refl, tt)))

parse_priority_env-Digits_example : parse_priority_env (some (codes "42")) (pos 50) ≡ (
    if leb (digits_value 0 (codes "42")) 100
    then some (pos (digits_value 0 (codes "42")))
    else none)
parse_priority_env-Digits_example = parse_priority_env-Digits (codes "42") (pos 50) Digits-42

load_initial_priorities-InRange_example : InRange (pos 20) × InRange (pos 30)
load_initial_priorities-InRange_example =
    load_initial_priorities-InRange no_environment (pos 20) (pos 30) defaults

shared_state_initialize-IsStart_example :
    IsStart
      (pos 5)
      (shared_state_initialize no_environment small_map (pos 5) (fresh all_succeed)).1.at
shared_state_initialize-IsStart_example =
    shared_state_initialize-IsStart memory (files small_file) (codes "c") small_map small_loads
      no_environment (pos 5) (fresh all_succeed) starts

shared_state_initialize_objects_example :
    let r = shared_state_initialize no_environment small_map (pos 5) (fresh sixth_fails) in
    ((r.0 ≡ ok tt) × ((o : ℕ) → r.1.live o ≡ (is_shared_mutex o || is_shared_semaphore o)))
    ⊎ ((r.0 ≡ error) × AllClear r.1.live)
shared_state_initialize_objects_example =
    shared_state_initialize_objects no_environment small_map (pos 5) (fresh sixth_fails) (λ o. refl)
