-- ===== src/Scheduler/Runtime/Reached.antt =====
-- What holds of every state that the four threads of P0 can reach.
use pacman_posix.Prelude.{◌+◌, ◌≤◌, ◌≡◌, refl, ap, length, arith}
use pacman_posix.Prelude.Int.{pos, ◌≤ℤ◌}
use pacman_posix.Shared.{SharedState}
use pacman_posix.Scheduler.{Scheduler, apply_requests, select_by_priority_or_round_robin, lose_life}
use pacman_posix.Scheduler.Priority.{apply_requests-Applied}
use pacman_posix.Scheduler.Runtime.{SchedulerRuntime, runtime_init, Step, Reaches}
use pacman_posix.Scheduler.Runtime.Turns.{
  IsPaced, at_work, quiet, advance-IsPaced, post-IsPaced, wait_done-same, take_collision-same,
}

apply_requests-tick : (s : SharedState) → (apply_requests s).global_tick ≡ s.global_tick
apply_requests-tick s = ap (λ (t : SharedState). t.global_tick) (apply_requests-Applied s).rest

select_same :
    (s : Scheduler)
    → (select_by_priority_or_round_robin s).1.state.global_tick ≡ s.state.global_tick
unfolding select_by_priority_or_round_robin
select_same s = refl

lose_life-tick : (s : SharedState) → (lose_life s).global_tick ≡ s.global_tick
unfolding lose_life
lose_life-tick s = refl

Step-IsPaced : {r s : SchedulerRuntime} → Step r s → IsPaced r → IsPaced s
Step-IsPaced (Step.tick_advances r e) p = advance-IsPaced r e p
Step-IsPaced (Step.tick_announces r e) p = quiet r _ refl refl (ground arith) (ground arith) p
Step-IsPaced (Step.tick_resumes r e n c) p = quiet r _ refl refl (ground arith) (ground arith) p
Step-IsPaced (Step.tick_leaves r e n) p = quiet r _ refl refl (ground arith) (ground arith) p
Step-IsPaced (Step.tick_stops r e) p = quiet r _ refl refl (ground arith) (ground arith) p
Step-IsPaced (Step.scheduler_takes r e n c) p = quiet r _ refl refl (ground arith) (ground arith) p
Step-IsPaced (Step.scheduler_leaves r e n) p = quiet r _ refl refl (ground arith) (ground arith) p
Step-IsPaced (Step.scheduler_applies r e) p =
    quiet r _ (apply_requests-tick r.scheduler.state) refl (ground arith) (ground arith) p
Step-IsPaced (Step.scheduler_selects r e) p =
    quiet r _ (select_same r.scheduler) refl (ground arith) (ground arith) p
Step-IsPaced (Step.scheduler_announces r q e) p =
    quiet r _ refl refl (ground arith) (ground arith) p
Step-IsPaced (Step.signal_takes r e n c) p = quiet r _ refl refl (ground arith) (ground arith) p
Step-IsPaced (Step.signal_leaves r e n) p = quiet r _ refl refl (ground arith) (ground arith) p
Step-IsPaced (Step.signal_posts r q e) p = post-IsPaced r q e p
Step-IsPaced (Step.signal_confirms r q n e c) p =
    quiet r _ (wait_done-same q r.scheduler) refl (ground arith) (ground arith) p
Step-IsPaced (Step.signal_completes r e) p = quiet r _ refl refl (ground arith) (ground arith) p
Step-IsPaced (Step.collision_takes r e n c) p = quiet r _ refl refl (ground arith) (ground arith) p
Step-IsPaced (Step.collision_leaves r e n) p = quiet r _ refl refl (ground arith) (ground arith) p
Step-IsPaced (Step.collision_processes r e) p =
    quiet r _ (take_collision-same r.scheduler) refl (ground arith) (ground arith) p
Step-IsPaced (Step.collision_costs r e) p =
    quiet r _ (lose_life-tick r.scheduler.state) refl (ground arith) (ground arith) p
Step-IsPaced (Step.collision_reads r e) p = quiet r _ refl refl (ground arith) (ground arith) p
Step-IsPaced (Step.collision_completes r over e) p =
    quiet r _ refl refl (ground arith) (ground arith) p
Step-IsPaced (Step.tick_fails r) p = quiet r _ refl refl (ground arith) (ground arith) p
Step-IsPaced (Step.scheduler_fails r) p = quiet r _ refl refl (ground arith) (ground arith) p
Step-IsPaced (Step.signal_fails r) p = quiet r _ refl refl (ground arith) (ground arith) p
Step-IsPaced (Step.collision_fails r) p = quiet r _ refl refl (ground arith) (ground arith) p
Step-IsPaced (Step.others_write r s e) p = quiet r _ e refl (ground arith) (ground arith) p

reached-IsPaced : {r s : SchedulerRuntime} → Reaches r s → IsPaced r → IsPaced s
reached-IsPaced (Reaches.here r) p = p
reached-IsPaced (Reaches.then before step) p = Step-IsPaced step (reached-IsPaced before p)

start-IsPaced : (s : Scheduler) → s.state.global_tick ≡ pos 0 → IsPaced (runtime_init s)
unfolding runtime_init
start-IsPaced s e = record { ticks = 0; clock = e; given = omega arith; taken = omega arith }

-- The turns keep up with the clock, and the threads take turns among themselves.
pub record InStep (r : SchedulerRuntime) : Type 0 where
  pub given : pos (length r.turns) ≤ℤ r.scheduler.state.global_tick
  pub taken : r.scheduler.state.global_tick ≤ℤ pos (length r.turns + 1)
  pub alone : at_work r ≤ 1

IsPaced-InStep : (r : SchedulerRuntime) → IsPaced r → InStep r
IsPaced-InStep r p =
    let g = p.given in
    let t = p.taken in
    record {
      given = rw (p.clock) (omega arith);
      taken = rw (p.clock) (omega arith);
      alone = omega arith;
    }

-- From the start of `scheduler_run` at tick 0, however the four threads of P0 interleave, where they
-- fail, and whatever else P1 and P2 write: each tick gives one turn before the next tick is counted
-- (the turns given are as many as the ticks, or one less), and at most one of the four threads is at
-- work at a time.
pub runtime-InStep :
    (s : Scheduler) (r : SchedulerRuntime)
    → s.state.global_tick ≡ pos 0
    → Reaches (runtime_init s) r
    → InStep r
runtime-InStep s r e reached = IsPaced-InStep r (reached-IsPaced reached (start-IsPaced s e))
