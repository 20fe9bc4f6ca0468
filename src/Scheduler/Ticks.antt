-- ===== src/Scheduler/Ticks.antt =====
-- The clock, the lives and the priorities of a game, in any order of the operations of P0.
pub mod Games
use pacman_posix.Prelude.{
  ℕ, zero, suc, ◌+◌, ◌≡◌, ◌⊎◌, inl, inr, refl, sym, subst, ap, ◌∙◌, Bool, true, false, List, [],
  ◌∷◌, if◌then◌else◌, ◌||◌, arith, Bool-cases,
}
use pacman_posix.Prelude.Int.{ℤ, pos, negsuc, ◌+ℤ◌, ◌≤ℤ◌, ◌<ℤ◌, leb_ℤ, ltb_ℤ}
use pacman_posix.Posix.{
  Object, M, World, Status, ok, error, stuck, ◌>>=◌, ◌>>◌, pure, state_mutex, priority_mutex,
  collision_mutex, name, continue, critical, call, modify, when,
}
use pacman_posix.Common.{initial_lives}
use pacman_posix.Shared.{SharedState}
use pacman_posix.Shared.Priorities.{InRange}
use pacman_posix.Scheduler.{
  Scheduler, on_state, end_game, lose_life, clear_collision_event, take_collision, should_process,
  next_tick, ticks_are_over, advance_tick, tick_section, apply_requests,
  select_by_priority_or_round_robin, scheduler_apply_priority_requests,
  scheduler_select_next_process, scheduler_print_tick_log, scheduler_process_collision_events,
  scheduler_request_shutdown, post_pacman_turn, post_enemy_turn,
}
use pacman_posix.Scheduler.Sections.{Section, Section-outcome, Section-keeps}
use pacman_posix.Scheduler.Priority.{
  InRanges, apply_requests-InRanges, apply_requests-Applied, Applied, but_priorities,
}
use pacman_posix.Scheduler.Collision.{lose_life-lives, lose_life-over, one_less}

-- What the source's own comments ask of a game: the tick within `max_ticks`, between none and three
-- lives, no game that goes on without one, and both priorities within their bounds.
pub record IsSound (s : SharedState) : Type 0 where
  pub started : pos 0 ≤ℤ s.global_tick
  pub in_time : s.global_tick ≤ℤ s.max_ticks
  pub some_lives : pos 0 ≤ℤ s.pacman_lives
  pub few_lives : s.pacman_lives ≤ℤ initial_lives
  pub alive : (s.game_over ≡ true) ⊎ (pos 0 <ℤ s.pacman_lives)
  pub priorities : InRanges s

-- The lives and the flag alone.
abbrev LivesOk : ℤ → Bool → Type 0
LivesOk lives over =
    (pos 0 ≤ℤ lives) × (lives ≤ℤ initial_lives) × ((over ≡ true) ⊎ (pos 0 <ℤ lives))

-- The fields that `IsSound` reads, of two states.
abbrev SameClock : SharedState → SharedState → Type 0
SameClock s t = (t.global_tick ≡ s.global_tick) × (t.max_ticks ≡ s.max_ticks)

abbrev SamePriorities : SharedState → SharedState → Type 0
SamePriorities s t =
    (t.prioridad_pacman ≡ s.prioridad_pacman) × (t.prioridad_enemy ≡ s.prioridad_enemy)

IsSound-with :
    (s t : SharedState)
    → SameClock s t
    → LivesOk t.pacman_lives t.game_over
    → InRanges t
    → IsSound s
    → IsSound t
IsSound-with s t c l p h = record {
  started = rw (c.0) h.started;
  in_time = rw (c.0, c.1) h.in_time;
  some_lives = l.0;
  few_lives = l.1;
  alive = l.2;
  priorities = p;
}

one_less-LivesOk :
    (lives : ℤ) (over : Bool)
    → LivesOk lives over
    → LivesOk (one_less lives) (over || leb_ℤ (one_less lives) (pos 0))
one_less-LivesOk (pos zero) over h = ground arith
one_less-LivesOk (pos (suc n)) over h = ground arith
one_less-LivesOk (negsuc n) over h = ground arith

LivesOk-of : {s : SharedState} → IsSound s → LivesOk s.pacman_lives s.game_over
LivesOk-of h = (h.some_lives, h.few_lives, h.alive)

pub lose_life-IsSound : (s : SharedState) → IsSound s → IsSound (lose_life s)
lose_life-IsSound s h =
    IsSound-with s (lose_life s) (unfold lose_life in (refl, refl))
      (rw (lose_life-over s, lose_life-lives s)
        (one_less-LivesOk s.pacman_lives s.game_over (LivesOk-of h)))
      (unfold lose_life in h.priorities) h

pub clear-IsSound : (s : SharedState) → IsSound s → IsSound (clear_collision_event s)
unfolding clear_collision_event
clear-IsSound s h = IsSound-with s _ (refl, refl) (LivesOk-of h) h.priorities h

pub end_game-IsSound : (s : SharedState) → IsSound s → IsSound (end_game s)
unfolding end_game
end_game-IsSound s h =
    IsSound-with s _ (refl, refl) (h.some_lives, h.few_lives, inl refl) h.priorities h

next_tick-IsSound : (s : SharedState) → ticks_are_over s ≡ false → IsSound s → IsSound (next_tick s)
unfolding ticks_are_over next_tick
next_tick-IsSound s e h = record {
  started = later s.global_tick h.started;
  in_time = fits s.max_ticks s.global_tick e;
  some_lives = h.some_lives;
  few_lives = h.few_lives;
  alive = h.alive;
  priorities = h.priorities;
}
  where
    later : (g : ℤ) → pos 0 ≤ℤ g → pos 0 ≤ℤ g +ℤ pos 1
    later g l = ground arith

    fits : (m g : ℤ) → leb_ℤ m g ≡ false → g +ℤ pos 1 ≤ℤ m
    fits m g l = ground arith

abbrev advanced : Bool → Bool → SharedState → Bool × SharedState
advanced over late s =
    if over then (true, s) else if late then (true, end_game s) else (false, next_tick s)

advanced-IsSound :
    (over late : Bool) (s : SharedState)
    → ticks_are_over s ≡ late
    → IsSound s
    → IsSound (advanced over late s).1
advanced-IsSound true late s e h = h
advanced-IsSound false true s e h = end_game-IsSound s h
advanced-IsSound false false s e h = next_tick-IsSound s e h

pub advance_tick-IsSound : (s : SharedState) → IsSound s → IsSound (advance_tick s).1
unfolding advance_tick
advance_tick-IsSound s h = advanced-IsSound s.game_over (ticks_are_over s) s refl h

pub requests-IsSound : (s : SharedState) → IsSound s → IsSound (apply_requests s)
requests-IsSound s h =
    let a = apply_requests-Applied s in
    IsSound-with s (apply_requests s)
      (ap (λ (t : SharedState). t.global_tick) a.rest, ap (λ (t : SharedState). t.max_ticks) a.rest)
      (subst (λ (t : SharedState). LivesOk t.pacman_lives t.game_over) (sym a.rest) (LivesOk-of h))
      (apply_requests-InRanges s h.priorities) h

pub post_pacman-IsSound : (s : SharedState) → IsSound s → IsSound (post_pacman_turn s)
unfolding post_pacman_turn
post_pacman-IsSound s h = IsSound-with s _ (refl, refl) (LivesOk-of h) h.priorities h

pub post_enemy-IsSound : (s : SharedState) → IsSound s → IsSound (post_enemy_turn s)
unfolding post_enemy_turn
post_enemy-IsSound s h = IsSound-with s _ (refl, refl) (LivesOk-of h) h.priorities h
