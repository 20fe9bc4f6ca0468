-- ===== src/Scheduler/Ticks/Games.antt =====
-- Games as sequences of P0's operations: what stays true whatever calls fail.
use pacman_posix.Prelude.{inl, inr, Bool, true, false, List, [], ◌∷◌, if◌then◌else◌, Bool-cases}
use pacman_posix.Posix.{
  Object, M, World, Status, ok, error, stuck, ◌>>=◌, ◌>>◌, pure, state_mutex, priority_mutex,
  collision_mutex, name, continue, critical, call, modify, when,
}
use pacman_posix.Shared.{SharedState}
use pacman_posix.Scheduler.{
  Scheduler, on_state, end_game, lose_life, take_collision, should_process, advance_tick,
  tick_section, apply_requests, select_by_priority_or_round_robin,
  scheduler_apply_priority_requests, scheduler_select_next_process, scheduler_print_tick_log,
  scheduler_process_collision_events, scheduler_request_shutdown, post_pacman_turn, post_enemy_turn,
  set_game_over,
}
use pacman_posix.Scheduler.Sections.{Section-outcome, Section-keeps}
use pacman_posix.Scheduler.Ticks.{
  IsSound, advance_tick-IsSound, requests-IsSound, lose_life-IsSound, clear-IsSound,
  end_game-IsSound, post_pacman-IsSound, post_enemy-IsSound,
}

-- The operations of P0's threads, one after the other.
pub data Operation : Type 0 where
  tick apply_priorities select print_log process_collisions request_shutdown : Operation

abbrev forget : {A : Type 0} → M Scheduler A → M Scheduler (Unit {0})
forget m = m >>= λ a. pure tt

abbrev pub perform : Operation → M Scheduler (Unit {0})
perform tick = forget tick_section
perform apply_priorities = scheduler_apply_priority_requests
perform select = forget scheduler_select_next_process
perform print_log = scheduler_print_tick_log
perform process_collisions = scheduler_process_collision_events
perform request_shutdown = scheduler_request_shutdown

-- A thread that fails does not stop the others at once.
pub perform_all : List Operation → World Scheduler → World Scheduler
perform_all [] w = w
perform_all (o ∷ os) w = perform_all os (perform o w).1

abbrev pub Sound : Scheduler → Type 0
Sound s = IsSound s.state

-- `m` keeps a sound state sound, whatever the mutexes and the calls do.
abbrev Keeps : {A : Type 0} → M Scheduler A → Type 0
Keeps m = (w : World Scheduler) → Sound w.at → Sound (m w).1.at

critical-Keeps :
    {A : Type 0} (m : Object) (f : Scheduler → Scheduler) (g : Scheduler → A)
    → ((s : Scheduler) → Sound s → Sound (f s))
    → Keeps (critical m f g)
critical-Keeps m f g k w p = elim (Bool-cases (w.held (name m))) [
  | inl e ↦ rw e p
  | inr e ↦ Section-keeps Sound (Section-outcome m f g w e) (k w.at) p
]

continue-Keeps :
    {A B : Type 0} (s : Status A) (f : A → M Scheduler B)
    → ((a : A) → Keeps (f a))
    → (w : World Scheduler) → Sound w.at
    → Sound (continue s f w).1.at
continue-Keeps (ok a) f k w p = k a w p
continue-Keeps error f k w p = p
continue-Keeps stuck f k w p = p

then-Keeps :
    {A B : Type 0} (m : M Scheduler A) (f : A → M Scheduler B)
    → Keeps m
    → ((a : A) → Keeps (f a))
    → Keeps (m >>= f)
then-Keeps m f a b w p = continue-Keeps (m w).0 f b (m w).1 (a w p)

take_collision-Sound : (s : Scheduler) → Sound s → Sound (take_collision s)
unfolding take_collision
take_collision-Sound s p = go s.state.collision_detected
  where
    go :
        (b : Bool)
        → IsSound (if b then pacman_posix.Scheduler.clear_collision_event s.state else s.state)
    go true = clear-IsSound s.state p
    go false = p

lose-Keeps : (b : Bool) → Keeps (when b (critical state_mutex (on_state lose_life) (λ _. tt)))
lose-Keeps true w p =
    critical-Keeps state_mutex (on_state lose_life) (λ _. tt) (λ s p. lose_life-IsSound s.state p) w
      p
lose-Keeps false w p = p

call-Keeps : Keeps call
call-Keeps w p = p

post-Keeps :
    (m : M Scheduler (Unit {0})) (f : SharedState → SharedState)
    → Keeps m
    → ((s : SharedState) → IsSound s → IsSound (f s))
    → Keeps (m >> call >> modify (on_state f))
post-Keeps m f a k =
    then-Keeps (m >> call) (λ _. modify (on_state f)) (then-Keeps m (λ _. call) a (λ _. call-Keeps))
      (λ _ w p. k w.at.state p)

perform-Keeps : (o : Operation) → Keeps (perform o)
unfolding tick_section scheduler_apply_priority_requests scheduler_select_next_process
    scheduler_print_tick_log scheduler_process_collision_events scheduler_request_shutdown
    select_by_priority_or_round_robin
perform-Keeps tick =
    then-Keeps tick_section (λ a. pure tt)
      (critical-Keeps state_mutex (on_state (λ t. (advance_tick t).1))
        (λ s. (advance_tick s.state).0) (λ s p. advance_tick-IsSound s.state p))
      (λ a w p. p)
perform-Keeps apply_priorities =
    critical-Keeps priority_mutex (on_state apply_requests) (λ _. tt)
      (λ s p. requests-IsSound s.state p)
perform-Keeps select =
    then-Keeps scheduler_select_next_process (λ a. pure tt)
      (critical-Keeps priority_mutex (λ s. (select_by_priority_or_round_robin s).1)
        (λ s. (select_by_priority_or_round_robin s).0) (λ s p. p))
      (λ a w p. p)
perform-Keeps print_log =
    then-Keeps (critical state_mutex (λ s. s) (λ _. tt))
      (λ _. critical priority_mutex (λ s. s) (λ _. tt))
      (critical-Keeps state_mutex (λ s. s) (λ _. tt) (λ s p. p))
      (λ _. critical-Keeps priority_mutex (λ s. s) (λ _. tt) (λ s p. p))
perform-Keeps process_collisions =
    then-Keeps (critical collision_mutex take_collision should_process) _
      (critical-Keeps collision_mutex take_collision should_process take_collision-Sound) lose-Keeps
perform-Keeps request_shutdown =
    post-Keeps (set_game_over >> call >> modify (on_state post_pacman_turn)) post_enemy_turn
      (post-Keeps set_game_over post_pacman_turn
        (critical-Keeps state_mutex (on_state end_game) (λ _. tt)
          (λ s p. end_game-IsSound s.state p))
        (λ s p. post_pacman-IsSound s p))
      (λ s p. post_enemy-IsSound s p)

-- A sound state stays sound through every sequence of P0's operations, in any order and whichever
-- of their calls fail: the tick stays within `max_ticks`, the lives between 0 and 3, the game is
-- over where none is left, and both priorities stay between 0 and 100.
pub perform_all-IsSound :
    (operations : List Operation) (w : World Scheduler)
    → IsSound w.at.state
    → IsSound (perform_all operations w).at.state
unfolding perform_all
perform_all-IsSound [] w h = h
perform_all-IsSound (o ∷ os) w h = perform_all-IsSound os (perform o w).1 (perform-Keeps o w h)
