-- ===== src/Scheduler/Tests.antt =====
-- P0 at a tick: one request, a tie, a collision.
use pacman_posix.Prelude.{
  ℕ, ◌≡◌, ◌≢◌, ◌<◌, ◌≤◌, ◌+◌, ◌*◌, refl, Bool, true, false, List, [], ◌∷◌, Option, some, arith,
  if◌then◌else◌,
}
use pacman_posix.Prelude.Int.{pos, negsuc}
use pacman_posix.Posix.{World, Status, stuck}
use pacman_posix.Shared.{SharedState, zeroed}
use pacman_posix.Scheduler.{
  process_pacman, process_enemy, Scheduler, alternate, choose, select_by_priority_or_round_robin,
  lose_life, clear_collision_event, should_process, take_collision,
  scheduler_process_collision_events, scheduler_apply_priority_requests,
  scheduler_select_next_process, scheduler_run_dry,
}
use pacman_posix.Scheduler.Priority.{
  Applied, InRanges, scheduler_apply_priority_requests-Applied,
  scheduler_apply_priority_requests-InRanges,
}
use pacman_posix.Scheduler.Choice.{
  Chosen, pacman_turns, scheduler_select_next_process-Chosen, pacman_turns_even,
}
use pacman_posix.Scheduler.Collision.{Collided, scheduler_process_collision_events-Collided}
use pacman_posix.Scheduler.Dry.Ends.{Ran, scheduler_run_dry-Ran}
use pacman_posix.Scheduler.Ticks.{IsSound}
use pacman_posix.Scheduler.Ticks.Games.{
  Operation, tick, apply_priorities, select, process_collisions, perform_all, perform_all-IsSound,
}

-- Tick 2 of 5, a tie, two lives, a collision of this tick and a request of P1.
abbrev busy_state : SharedState
busy_state = record zeroed {
  global_tick = pos 2;
  max_ticks = pos 5;
  pacman_lives = pos 2;
  collision_detected = true;
  collision_tick = pos 2;
  prioridad_pacman = pos 50;
  prioridad_enemy = pos 50;
  pending_priority_pacman = pos 70;
  priority_request_active = true;
}

abbrev busy : World Scheduler
busy = record {
  at = record {
    state = busy_state;
    last_round_robin = process_enemy;
    last_processed_collision_tick = negsuc 0;
  };
  live = λ _. true;
  held = λ _. false;
  calls = 0;
  succeeds = λ _. true;
}

scheduler_apply_priority_requests-Applied_example :
    Applied busy.at.state (scheduler_apply_priority_requests busy).1.at.state
    × ((o : ℕ) → (scheduler_apply_priority_requests busy).1.held o ≡ busy.held o)
scheduler_apply_priority_requests-Applied_example =
    scheduler_apply_priority_requests-Applied busy refl
      (unfold scheduler_apply_priority_requests in refl)

scheduler_apply_priority_requests-InRanges_example :
    InRanges (scheduler_apply_priority_requests busy).1.at.state
    × ((scheduler_apply_priority_requests busy).0 ≢ stuck)
scheduler_apply_priority_requests-InRanges_example =
    scheduler_apply_priority_requests-InRanges busy refl
      ((omega arith, omega arith), (omega arith, omega arith))

scheduler_select_next_process-Chosen_example :
    Chosen busy.at (scheduler_select_next_process busy).1.at process_pacman
scheduler_select_next_process-Chosen_example =
    scheduler_select_next_process-Chosen busy process_pacman refl (
      unfold scheduler_select_next_process select_by_priority_or_round_robin choose alternate in
      refl)

pacman_turns_even_example : pacman_turns (3 + 3) busy.at ≡ 3
pacman_turns_even_example = pacman_turns_even 3 busy.at refl

scheduler_process_collision_events-Collided_example :
    Collided busy.at (scheduler_process_collision_events busy).1.at
    × ((o : ℕ) → (scheduler_process_collision_events busy).1.held o ≡ busy.held o)
scheduler_process_collision_events-Collided_example =
    scheduler_process_collision_events-Collided busy refl refl (
      unfold scheduler_process_collision_events should_process take_collision lose_life
        clear_collision_event in
      refl)

scheduler_run_dry-Ran_example :
    (result : Status (Unit {0})) × (v : World Scheduler) × (scheduler_run_dry busy
      ≡ some (result, v))
    × Ran busy v result
scheduler_run_dry-Ran_example = scheduler_run_dry-Ran busy refl refl

busy-IsSound : IsSound busy.at.state
busy-IsSound = record {
  started = omega arith;
  in_time = omega arith;
  some_lives = omega arith;
  few_lives = omega arith;
  alive = pacman_posix.Prelude.inr (omega arith);
  priorities = ((omega arith, omega arith), (omega arith, omega arith));
}

abbrev one_tick : List Operation
one_tick = tick ∷ apply_priorities ∷ select ∷ process_collisions ∷ []

perform_all-IsSound_example : IsSound (perform_all one_tick busy).at.state
perform_all-IsSound_example = perform_all-IsSound one_tick busy busy-IsSound
