-- ===== src/Scheduler/Runtime.antt =====
-- src/scheduler.c, `scheduler_run`: the four threads of P0 with `SchedulerRuntime`, as steps that
-- interleave. A step is one critical section, or one call on a semaphore; a thread that waits on a
-- condition variable has no step until its loop would leave the wait. The log of a tick, which only
-- reads, is left out; a call that fails after its section has had its effect is not modelled.
pub mod Turns
pub mod Reached
mod Tests
use pacman_posix.Prelude.{
  ℕ, suc, ◌+◌, ◌-◌, ◌≡◌, Bool, true, false, ◌||◌, List, [], ◌∷◌, if◌then◌else◌,
}
use pacman_posix.Prelude.Int.{ℤ}
use pacman_posix.Shared.{SharedState}
use pacman_posix.Scheduler.{
  SchedulerProcess, process_pacman, process_enemy, Scheduler, scheduler_init, on_state,
  advance_tick, apply_requests, select_by_priority_or_round_robin, take_collision, should_process,
  lose_life, post_pacman_turn, post_enemy_turn,
}

-- Where each thread stands in its loop.
pub data TickPlace : Type 0 where
  advancing announcing_tick awaiting_collisions stopping tick_ended : TickPlace

pub data SchedulerPlace : Type 0 where
  awaiting_tick applying selecting scheduler_ended : SchedulerPlace
  announcing_selection : SchedulerProcess → SchedulerPlace

pub data SignalPlace : Type 0 where
  awaiting_selection completing_turn signal_ended : SignalPlace
  posting confirming : SchedulerProcess → SignalPlace

pub data CollisionPlace : Type 0 where
  awaiting_turn taking losing reading collision_ended : CollisionPlace
  completing_collisions : (game_over : Bool) → CollisionPlace

-- `SchedulerRuntime` with the places of its threads and the turns given so far, the last one first.
pub record SchedulerRuntime : Type 0 where
  pub scheduler : Scheduler
  pub tick_ready : Bool
  pub selection_ready : Bool
  pub turn_done : Bool
  pub collision_done : Bool
  pub shutdown_requested : Bool
  pub thread_error : Bool
  pub selected_process : SchedulerProcess
  pub tick_at : TickPlace
  pub scheduler_at : SchedulerPlace
  pub signal_at : SignalPlace
  pub collision_at : CollisionPlace
  pub turns : List SchedulerProcess

-- After `runtime_init` and the four `pthread_create`.
unfoldable pub runtime_init : Scheduler → SchedulerRuntime
runtime_init scheduler = record {
  scheduler = scheduler;
  tick_ready = false;
  selection_ready = false;
  turn_done = false;
  collision_done = false;
  shutdown_requested = false;
  thread_error = false;
  selected_process = process_pacman;
  tick_at = advancing;
  scheduler_at = awaiting_tick;
  signal_at = awaiting_selection;
  collision_at = awaiting_turn;
  turns = [];
}

abbrev pub is_stopping : SchedulerRuntime → Bool
is_stopping r = r.shutdown_requested || r.thread_error

-- What `dispatch_selected_process` posts, and the semaphore on which it then waits.
unfoldable pub post_turn : SchedulerProcess → Scheduler → Scheduler
post_turn process_pacman = on_state post_pacman_turn
post_turn process_enemy = on_state post_enemy_turn

abbrev pub done_count : SchedulerProcess → SharedState → ℕ
done_count process_pacman s = s.sem_p1_done
done_count process_enemy s = s.sem_p2_done

unfoldable pub wait_done : SchedulerProcess → Scheduler → Scheduler
wait_done process_pacman = on_state (λ s. record s { sem_p1_done = s.sem_p1_done - 1 })
wait_done process_enemy = on_state (λ s. record s { sem_p2_done = s.sem_p2_done - 1 })

abbrev pub tick_next : Bool → TickPlace
tick_next stop = if stop then stopping else announcing_tick

abbrev pub error_flags : SchedulerRuntime → SchedulerRuntime
error_flags r = record r { thread_error = true; shutdown_requested = true }

-- One step of one thread, or a call in it that fails before it has an effect (`runtime_mark_error`),
-- or what P1 and P2 write, which is never the tick.
pub data Step : SchedulerRuntime → SchedulerRuntime → Type 0 where
  tick_advances :
      (r : SchedulerRuntime)
      → r.tick_at ≡ advancing
      → Step r (record r {
        scheduler = on_state (λ s. (advance_tick s).1) r.scheduler;
        tick_at = tick_next (advance_tick r.scheduler.state).0;
      })
  tick_announces :
      (r : SchedulerRuntime)
      → r.tick_at ≡ announcing_tick
      → Step r (record r {
        tick_ready = true;
        selection_ready = false;
        turn_done = false;
        collision_done = false;
        tick_at = awaiting_collisions;
      })
  tick_resumes :
      (r : SchedulerRuntime)
      → r.tick_at ≡ awaiting_collisions
      → is_stopping r ≡ false
      → r.collision_done ≡ true
      → Step r (record r { tick_at = advancing })
  tick_leaves :
      (r : SchedulerRuntime)
      → r.tick_at ≡ awaiting_collisions
      → is_stopping r ≡ true
      → Step r (record r { tick_at = tick_ended })
  tick_stops :
      (r : SchedulerRuntime)
      → r.tick_at ≡ stopping
      → Step r (record r { shutdown_requested = true; tick_at = tick_ended })
  scheduler_takes :
      (r : SchedulerRuntime)
      → r.scheduler_at ≡ awaiting_tick
      → is_stopping r ≡ false
      → r.tick_ready ≡ true
      → Step r (record r { tick_ready = false; scheduler_at = applying })
  scheduler_leaves :
      (r : SchedulerRuntime)
      → r.scheduler_at ≡ awaiting_tick
      → is_stopping r ≡ true
      → Step r (record r { scheduler_at = scheduler_ended })
  scheduler_applies :
      (r : SchedulerRuntime)
      → r.scheduler_at ≡ applying
      → Step r
          (record r { scheduler = on_state apply_requests r.scheduler; scheduler_at = selecting })
  scheduler_selects :
      (r : SchedulerRuntime)
      → r.scheduler_at ≡ selecting
      → Step r (record r {
        scheduler = (select_by_priority_or_round_robin r.scheduler).1;
        scheduler_at = announcing_selection (select_by_priority_or_round_robin r.scheduler).0;
      })
  scheduler_announces :
      (r : SchedulerRuntime) (selected : SchedulerProcess)
      → r.scheduler_at ≡ announcing_selection selected
      → Step r (record r {
        selected_process = selected;
        selection_ready = true;
        scheduler_at = awaiting_tick;
      })
  signal_takes :
      (r : SchedulerRuntime)
      → r.signal_at ≡ awaiting_selection
      → is_stopping r ≡ false
      → r.selection_ready ≡ true
      → Step r (record r { selection_ready = false; signal_at = posting r.selected_process })
  signal_leaves :
      (r : SchedulerRuntime)
      → r.signal_at ≡ awaiting_selection
      → is_stopping r ≡ true
      → Step r (record r { signal_at = signal_ended })
  signal_posts :
      (r : SchedulerRuntime) (selected : SchedulerProcess)
      → r.signal_at ≡ posting selected
      → Step r (record r {
        scheduler = post_turn selected r.scheduler;
        signal_at = confirming selected;
        turns = selected ∷ r.turns;
      })
  signal_confirms :
      (r : SchedulerRuntime) (selected : SchedulerProcess) (n : ℕ)
      → r.signal_at ≡ confirming selected
      → done_count selected r.scheduler.state ≡ suc n
      → Step r
          (record r { scheduler = wait_done selected r.scheduler; signal_at = completing_turn })
  signal_completes :
      (r : SchedulerRuntime)
      → r.signal_at ≡ completing_turn
      → Step r (record r { turn_done = true; signal_at = awaiting_selection })
  collision_takes :
      (r : SchedulerRuntime)
      → r.collision_at ≡ awaiting_turn
      → is_stopping r ≡ false
      → r.turn_done ≡ true
      → Step r (record r { turn_done = false; collision_at = taking })
  collision_leaves :
      (r : SchedulerRuntime)
      → r.collision_at ≡ awaiting_turn
      → is_stopping r ≡ true
      → Step r (record r { collision_at = collision_ended })
  collision_processes :
      (r : SchedulerRuntime)
      → r.collision_at ≡ taking
      → Step r (record r {
        scheduler = take_collision r.scheduler;
        collision_at = if should_process r.scheduler then losing else reading;
      })
  collision_costs :
      (r : SchedulerRuntime)
      → r.collision_at ≡ losing
      → Step r (record r { scheduler = on_state lose_life r.scheduler; collision_at = reading })
  collision_reads :
      (r : SchedulerRuntime)
      → r.collision_at ≡ reading
      → Step r (record r { collision_at = completing_collisions r.scheduler.state.game_over })
  collision_completes :
      (r : SchedulerRuntime) (over : Bool)
      → r.collision_at ≡ completing_collisions over
      → Step r (record r {
        collision_done = true;
        shutdown_requested = r.shutdown_requested || over;
        collision_at = awaiting_turn;
      })
  tick_fails : (r : SchedulerRuntime) → Step r (record (error_flags r) { tick_at = tick_ended })
  scheduler_fails :
      (r : SchedulerRuntime) → Step r (record (error_flags r) { scheduler_at = scheduler_ended })
  signal_fails :
      (r : SchedulerRuntime) → Step r (record (error_flags r) { signal_at = signal_ended })
  collision_fails :
      (r : SchedulerRuntime) → Step r (record (error_flags r) { collision_at = collision_ended })
  others_write :
      (r : SchedulerRuntime) (s : SharedState)
      → s.global_tick ≡ r.scheduler.state.global_tick
      → Step r (record r { scheduler = on_state (λ _. s) r.scheduler })

-- What can come of `r`.
pub data Reaches : SchedulerRuntime → SchedulerRuntime → Type 0 where
  here : (r : SchedulerRuntime) → Reaches r r
  then : {r s t : SchedulerRuntime} → Reaches r s → Step s t → Reaches r t
