-- ===== src/Scheduler/Runtime/Tests.antt =====
-- A game of two ticks, up to the turn of the first one.
use pacman_posix.Prelude.{◌≡◌, refl, [], ◌∷◌}
use pacman_posix.Prelude.Int.{pos, negsuc}
use pacman_posix.Shared.{zeroed}
use pacman_posix.Scheduler.{
  process_pacman, process_enemy, Scheduler, advance_tick, next_tick, ticks_are_over, apply_requests,
  apply_pacman_priority_request, apply_enemy_priority_request, apply_pacman_if, apply_enemy_if,
  select_by_priority_or_round_robin, choose, alternate,
}
use pacman_posix.Scheduler.Runtime.{SchedulerRuntime, runtime_init, Step, Reaches}
use pacman_posix.Scheduler.Runtime.Reached.{InStep, runtime-InStep}

abbrev beginning : Scheduler
beginning = record {
  state = record zeroed { max_ticks = pos 2; pacman_lives = pos 3 };
  last_round_robin = process_enemy;
  last_processed_collision_tick = negsuc 0;
}

abbrev Reached : Type 0
Reached =
    (r : SchedulerRuntime) × Reaches (runtime_init beginning) r × (r.turns ≡ process_pacman ∷ [])

after_turn_one : Reached
unfolding runtime_init advance_tick next_tick ticks_are_over apply_requests
    apply_pacman_priority_request apply_enemy_priority_request apply_pacman_if apply_enemy_if
    select_by_priority_or_round_robin choose alternate
after_turn_one = (
  _,
  Reaches.then
      (Reaches.then
        (Reaches.then
          (Reaches.then
            (Reaches.then
              (Reaches.then
                (Reaches.then
                  (Reaches.then (Reaches.here (runtime_init beginning)) (Step.tick_advances _ refl))
                  (Step.tick_announces _ refl))
                (Step.scheduler_takes _ refl refl refl))
              (Step.scheduler_applies _ refl))
            (Step.scheduler_selects _ refl))
          (Step.scheduler_announces _ process_pacman refl))
        (Step.signal_takes _ refl refl refl))
      (Step.signal_posts _ process_pacman refl),
  refl,
)

runtime-InStep_example : InStep after_turn_one.0
runtime-InStep_example = runtime-InStep beginning after_turn_one.0 refl after_turn_one.1
