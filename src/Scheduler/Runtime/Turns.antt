-- ===== src/Scheduler/Runtime/Turns.antt =====
-- One turn for each tick: what the four threads of P0 keep, however they interleave.
use pacman_posix.Prelude.{
  ℕ, ◌+◌, ◌≤◌, ◌≡◌, refl, ap, ◌∙◌, Bool, true, false, ◌∷◌, length, if◌then◌else◌, arith, inl, inr,
  ◌⊎◌,
}
use pacman_posix.Prelude.Int.{ℤ, pos, ◌+ℤ◌}
use pacman_posix.Shared.{SharedState}
use pacman_posix.Scheduler.{
  SchedulerProcess, process_pacman, process_enemy, Scheduler, on_state, advance_tick, end_game,
  next_tick, ticks_are_over, take_collision, clear_collision_event, post_pacman_turn,
  post_enemy_turn,
}
use pacman_posix.Scheduler.Runtime.{
  TickPlace, advancing, announcing_tick, awaiting_collisions, SchedulerPlace, awaiting_tick,
  scheduler_ended, SignalPlace, posting, confirming, completing_turn, CollisionPlace, awaiting_turn,
  collision_ended, SchedulerRuntime, post_turn, wait_done, tick_next,
}

abbrev one_if : Bool → ℕ
one_if true = 1
one_if false = 0

abbrev advances : TickPlace → ℕ
advances advancing = 1
advances _ = 0

abbrev announces : TickPlace → ℕ
announces announcing_tick = 1
announces _ = 0

abbrev resumes : TickPlace → Bool → ℕ
resumes awaiting_collisions collision_done = one_if collision_done
resumes _ collision_done = 0

abbrev schedules : SchedulerPlace → ℕ
schedules awaiting_tick = 0
schedules scheduler_ended = 0
schedules _ = 1

abbrev posts : SignalPlace → ℕ
posts (posting p) = 1
posts _ = 0

abbrev confirms : SignalPlace → ℕ
confirms (confirming p) = 1
confirms completing_turn = 1
confirms _ = 0

abbrev collides : CollisionPlace → ℕ
collides awaiting_turn = 0
collides collision_ended = 0
collides _ = 1

-- How many threads are at work between a tick and its turn, and between the turn and the next tick;
-- a flag that is set counts for the thread that it wakes up.
abbrev pub before_turn : SchedulerRuntime → ℕ
before_turn r =
    announces r.tick_at
    + one_if r.tick_ready
    + schedules r.scheduler_at
    + one_if r.selection_ready
    + posts r.signal_at

abbrev pub after_turn : SchedulerRuntime → ℕ
after_turn r =
    confirms r.signal_at
    + one_if r.turn_done
    + collides r.collision_at
    + resumes r.tick_at r.collision_done
    + advances r.tick_at

-- The threads that are not waiting.
abbrev pub at_work : SchedulerRuntime → ℕ
at_work r =
    advances r.tick_at
    + announces r.tick_at
    + schedules r.scheduler_at
    + posts r.signal_at
    + confirms r.signal_at
    + collides r.collision_at

abbrev pub tick_of : SchedulerRuntime → ℤ
tick_of r = r.scheduler.state.global_tick

pub record IsPaced (r : SchedulerRuntime) : Type 0 where
  pub ticks : ℕ
  pub clock : tick_of r ≡ pos ticks
  pub given : length r.turns + before_turn r ≤ ticks
  pub taken : ticks + after_turn r ≤ length r.turns + 1

-- A step that gives no turn, counts no tick and puts no thread to work.
pub quiet :
    (r s : SchedulerRuntime)
    → tick_of s ≡ tick_of r
    → s.turns ≡ r.turns
    → before_turn s ≤ before_turn r
    → after_turn s ≤ after_turn r
    → IsPaced r
    → IsPaced s
quiet r s t u b a p = record {
  ticks = p.ticks;
  clock = t ∙ p.clock;
  given = let g = p.given in rw u (omega arith);
  taken = let g = p.taken in rw u (omega arith);
}

abbrev Quietly : SchedulerRuntime → SchedulerRuntime → Type 0
Quietly r s = (before_turn s ≤ before_turn r) × (after_turn s ≤ after_turn r)

abbrev advanced_by : Bool → Bool → SharedState → Bool × SharedState
advanced_by over late s =
    if over then (true, s) else if late then (true, end_game s) else (false, next_tick s)

-- The clock stops or goes on by one.
abbrev Ticked : SharedState → Bool × SharedState → Type 0
Ticked s r =
    ((r.0 ≡ true) × (r.1.global_tick ≡ s.global_tick))
    ⊎ ((r.0 ≡ false) × (r.1.global_tick ≡ s.global_tick +ℤ pos 1))

advanced_by-Ticked : (over late : Bool) (s : SharedState) → Ticked s (advanced_by over late s)
unfolding end_game next_tick
advanced_by-Ticked true late s = inl (refl, refl)
advanced_by-Ticked false true s = inl (refl, refl)
advanced_by-Ticked false false s = inr (refl, refl)

advance_tick-Ticked : (s : SharedState) → Ticked s (advance_tick s)
unfolding advance_tick
advance_tick-Ticked s = advanced_by-Ticked s.game_over (ticks_are_over s) s

next_pos : (n : ℕ) → pos n +ℤ pos 1 ≡ pos (n + 1)
next_pos n = ground arith

pub advance-IsPaced :
    (r : SchedulerRuntime)
    → r.tick_at ≡ advancing
    → IsPaced r
    → IsPaced (record r {
      scheduler = on_state (λ s. (advance_tick s).1) r.scheduler;
      tick_at = tick_next (advance_tick r.scheduler.state).0;
    })
advance-IsPaced r e p = elim (advance_tick-Ticked r.scheduler.state) [
  | inl (stop, same) ↦ record {
    ticks = p.ticks;
    clock = same ∙ p.clock;
    given = let g = p.given in rw stop (ground arith);
    taken = let g = p.taken in rw stop (ground arith);
  }
  | inr (go, later) ↦ record {
    ticks = p.ticks + 1;
    clock = later ∙ ap (λ t. t +ℤ pos 1) p.clock ∙ next_pos p.ticks;
    given = let g = p.given in rw go (ground arith);
    taken = let g = p.taken in rw go (ground arith);
  }
]

post_turn-same :
    (p : SchedulerProcess) (s : Scheduler) → (post_turn p s).state.global_tick ≡ s.state.global_tick
unfolding post_turn post_pacman_turn post_enemy_turn
post_turn-same process_pacman s = refl
post_turn-same process_enemy s = refl

pub wait_done-same :
    (p : SchedulerProcess) (s : Scheduler) → (wait_done p s).state.global_tick ≡ s.state.global_tick
unfolding wait_done
wait_done-same process_pacman s = refl
wait_done-same process_enemy s = refl

pub take_collision-same :
    (s : Scheduler) → (take_collision s).state.global_tick ≡ s.state.global_tick
unfolding take_collision clear_collision_event
take_collision-same s = ground arith

pub post-IsPaced :
    (r : SchedulerRuntime) (p : SchedulerProcess)
    → r.signal_at ≡ posting p
    → IsPaced r
    → IsPaced (record r {
      scheduler = post_turn p r.scheduler;
      signal_at = confirming p;
      turns = p ∷ r.turns;
    })
post-IsPaced r p e h = record {
  ticks = h.ticks;
  clock = post_turn-same p r.scheduler ∙ h.clock;
  given = let g = h.given in ground arith;
  taken = let g = h.taken in ground arith;
}
