-- ===== src/Scheduler.antt =====
-- src/scheduler.c and include/scheduler.h, the part that one thread of P0 runs by itself: the
-- priority requests, the choice of the process, the collision events, the ticks, the dry run and the
-- request for the end of the game. The messages to the console are left out.
pub mod Sections
pub mod Priority
pub mod Choice
pub mod Collision
pub mod Ticks
pub mod Dry
pub mod Runtime
mod Tests
use pacman_posix.Prelude.{
  ℕ, zero, suc, ◌+◌, ◌-◌, Bool, true, false, ◌&&◌, not, Option, none, some, if◌then◌else◌,
}
use pacman_posix.Prelude.Int.{ℤ, pos, negsuc, pos_part, neg_part, ◌+ℤ◌, ltb_ℤ, leb_ℤ, eqb_ℤ}
use pacman_posix.Common.{min_priority, max_priority}
use pacman_posix.Posix.{
  Object, M, World, Status, ok, error, stuck, ◌>>=◌, ◌>>◌, pure, modify, when, call, critical,
  state_mutex, priority_mutex, collision_mutex,
}
use pacman_posix.Shared.{SharedState}

pub data SchedulerProcess : Type 0 where
  process_pacman process_enemy : SchedulerProcess

-- The pointer `state` leads to the shared state: here it is that state.
pub record Scheduler : Type 0 where
  pub state : SharedState
  pub last_round_robin : SchedulerProcess
  pub last_processed_collision_tick : ℤ

unfoldable pub scheduler_init : SharedState → Scheduler
scheduler_init state = record {
  state = state;
  last_round_robin = process_enemy;
  last_processed_collision_tick = negsuc 0;
}

abbrev pub on_state : (SharedState → SharedState) → Scheduler → Scheduler
on_state f s = record s { state = f s.state }

unfoldable pub is_priority_in_range : ℤ → Bool
is_priority_in_range priority = leb_ℤ min_priority priority && leb_ℤ priority max_priority

-- The function's body for a value of `priority_request_active`.
unfoldable pub apply_pacman_if : Bool → SharedState → SharedState
unfolding is_priority_in_range
apply_pacman_if false s = s
apply_pacman_if true s = record s {
  prioridad_pacman =
      if is_priority_in_range s.pending_priority_pacman
      then s.pending_priority_pacman
      else s.prioridad_pacman;
  priority_request_active = false;
}

unfoldable pub apply_pacman_priority_request : SharedState → SharedState
unfolding apply_pacman_if
apply_pacman_priority_request s = apply_pacman_if s.priority_request_active s

unfoldable pub apply_enemy_if : Bool → SharedState → SharedState
unfolding is_priority_in_range
apply_enemy_if false s = s
apply_enemy_if true s = record s {
  prioridad_enemy =
      if is_priority_in_range s.pending_priority_enemy
      then s.pending_priority_enemy
      else s.prioridad_enemy;
  enemy_priority_request_active = false;
}

unfoldable pub apply_enemy_priority_request : SharedState → SharedState
unfolding apply_enemy_if
apply_enemy_priority_request s = apply_enemy_if s.enemy_priority_request_active s

-- The next process in turn.
unfoldable pub alternate : SchedulerProcess → SchedulerProcess
alternate process_pacman = process_enemy
alternate process_enemy = process_pacman

-- The choice, and what `last_round_robin` is then.
unfoldable pub choose : ℤ → ℤ → SchedulerProcess → SchedulerProcess × SchedulerProcess
unfolding alternate
choose prioridad_pacman prioridad_enemy last =
    if ltb_ℤ prioridad_enemy prioridad_pacman
    then (process_pacman, last)
    else if ltb_ℤ prioridad_pacman prioridad_enemy
    then (process_enemy, last)
    else (alternate last, alternate last)

unfoldable pub select_by_priority_or_round_robin : Scheduler → SchedulerProcess × Scheduler
select_by_priority_or_round_robin s =
    let r = choose s.state.prioridad_pacman s.state.prioridad_enemy s.last_round_robin in
    (r.0, record s { last_round_robin = r.1 })

-- Between the calls on the mutex of `set_game_over`.
unfoldable pub end_game : SharedState → SharedState
end_game s = record s { game_over = true }

abbrev pub set_game_over : M Scheduler (Unit {0})
set_game_over = critical state_mutex (on_state end_game) (λ _. tt)

abbrev pub read_game_over : M Scheduler Bool
read_game_over = critical state_mutex (λ s. s) (λ s. s.state.game_over)

-- Between the calls on the mutex of `decrement_life_for_collision`.
unfoldable pub lose_life : SharedState → SharedState
lose_life s =
    let lives =
      if ltb_ℤ (pos 0) s.pacman_lives then s.pacman_lives +ℤ negsuc 0 else s.pacman_lives in
    record s { pacman_lives = lives; game_over = if leb_ℤ lives (pos 0) then true else s.game_over }

abbrev pub decrement_life_for_collision : M Scheduler (Unit {0})
decrement_life_for_collision = critical state_mutex (on_state lose_life) (λ _. tt)

unfoldable pub clear_collision_event : SharedState → SharedState
clear_collision_event s = record s {
  collision_detected = false;
  collision_tick = negsuc 0;
  collision_ghost_id = negsuc 0;
}

-- `collision_detected && collision_tick != scheduler->last_processed_collision_tick`
unfoldable pub should_process : Scheduler → Bool
should_process s =
    s.state.collision_detected && not (eqb_ℤ s.state.collision_tick s.last_processed_collision_tick)

-- What the code between the calls on `collision_mutex` writes.
unfoldable pub take_collision : Scheduler → Scheduler
unfolding should_process
take_collision s = record s {
  state = if s.state.collision_detected then clear_collision_event s.state else s.state;
  last_processed_collision_tick =
      if should_process s then s.state.collision_tick else s.last_processed_collision_tick;
}

unfoldable pub scheduler_process_collision_events : M Scheduler (Unit {0})
scheduler_process_collision_events =
    critical collision_mutex take_collision should_process >>= λ process.
    when process decrement_life_for_collision

-- Both requests, Pac-Man's first.
unfoldable pub apply_requests : SharedState → SharedState
apply_requests s = apply_enemy_priority_request (apply_pacman_priority_request s)

unfoldable pub scheduler_apply_priority_requests : M Scheduler (Unit {0})
scheduler_apply_priority_requests = critical priority_mutex (on_state apply_requests) (λ _. tt)

unfoldable pub scheduler_select_next_process : M Scheduler SchedulerProcess
scheduler_select_next_process =
    critical priority_mutex (λ s. (select_by_priority_or_round_robin s).1)
      (λ s. (select_by_priority_or_round_robin s).0)

-- Only reads, under the two mutexes.
unfoldable pub scheduler_print_tick_log : M Scheduler (Unit {0})
scheduler_print_tick_log =
    critical state_mutex (λ s. s) (λ _. tt) >> critical priority_mutex (λ s. s) (λ _. tt)

-- `++state->global_tick;`
unfoldable pub next_tick : SharedState → SharedState
next_tick s = record s { global_tick = s.global_tick +ℤ pos 1 }

-- `state->global_tick >= state->max_ticks`
unfoldable pub ticks_are_over : SharedState → Bool
ticks_are_over s = leb_ℤ s.max_ticks s.global_tick

-- The first part of a round of `tick_thread`, under `state_mutex`: `true` where the thread stops.
unfoldable pub advance_tick : SharedState → Bool × SharedState
advance_tick s =
    if s.game_over
    then (true, s)
    else if ticks_are_over s
    then (true, end_game s)
    else (false, next_tick s)

-- The same with its mutex.
unfoldable pub tick_section : M Scheduler Bool
tick_section =
    critical state_mutex (λ s. on_state (λ t. (advance_tick t).1) s) (λ s. (advance_tick s.state).0)

-- The head of the loop of `scheduler_run_dry`: `false` where it breaks.
unfoldable pub dry_tick : M Scheduler Bool
dry_tick =
    critical state_mutex (λ s. if ticks_are_over s.state then s else on_state next_tick s)
      (λ s. not (ticks_are_over s.state))

-- The rest of a round.
unfoldable pub dry_round : M Scheduler (Unit {0})
dry_round =
    scheduler_apply_priority_requests
    >> (scheduler_select_next_process >>= λ selected. scheduler_print_tick_log)

-- A whole round, and whether there is to be another.
unfoldable pub dry_body : M Scheduler Bool
dry_body = dry_tick >>= λ more. if more then dry_round >> pure true else pure false

-- What the loop does after a round that ended in `w`, where `rest` is the rest of the run.
abbrev pub after_body :
    Status Bool
    → World Scheduler
    → Option (Status (Unit {0}) × World Scheduler)
    → Option (Status (Unit {0}) × World Scheduler)
after_body (ok true) w rest = rest
after_body (ok false) w rest = some (ok tt, w)
after_body error w rest = some (error, w)
after_body stuck w rest = some (stuck, w)

-- The loop of `scheduler_run_dry`, with at most `fuel` rounds: `none` where the fuel runs out.
unfoldable pub dry_loop : ℕ → World Scheduler → Option (Status (Unit {0}) × World Scheduler)
dry_loop zero w = none
dry_loop (suc fuel) w =
    let rest = dry_loop fuel (dry_body w).1 in after_body (dry_body w).0 (dry_body w).1 rest

-- The ticks that are left, as a number.
unfoldable pub ticks_left : SharedState → ℕ
ticks_left s =
    pos_part s.max_ticks + neg_part s.global_tick - (pos_part s.global_tick + neg_part s.max_ticks)

unfoldable pub scheduler_run_dry : World Scheduler → Option (Status (Unit {0}) × World Scheduler)
scheduler_run_dry w = dry_loop (ticks_left w.at.state + 1) w

-- `post_turn`: a `sem_post` that succeeds adds one to the semaphore.
unfoldable pub post_pacman_turn : SharedState → SharedState
post_pacman_turn s = record s { sem_pacman_turn = s.sem_pacman_turn + 1 }

unfoldable pub post_enemy_turn : SharedState → SharedState
post_enemy_turn s = record s { sem_enemy_turn = s.sem_enemy_turn + 1 }

unfoldable pub scheduler_request_shutdown : M Scheduler (Unit {0})
scheduler_request_shutdown =
    set_game_over
    >> call
    >> modify (on_state post_pacman_turn)
    >> call
    >> modify (on_state post_enemy_turn)
