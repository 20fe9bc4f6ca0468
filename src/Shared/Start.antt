-- ===== src/Shared/Start.antt =====
-- The state in which a game starts: `shared_state_initialize` on a map that `map_load` accepted.
use pacman_posix.Prelude.{
  ℕ, ◌≡◌, refl, sym, subst, Bool, true, false, Option, none, some, arith, ◌≤◌,
}
use pacman_posix.Prelude.Int.{ℤ, pos}
use pacman_posix.Text.{Bytes}
use pacman_posix.Environment.{FileSystem}
use pacman_posix.Common.{initial_lives, max_map_rows, max_map_cols}
use pacman_posix.Map.{Map, empty_map, map_load}
use pacman_posix.Map.{accepted}
use pacman_posix.Map.Cells.{Piece, letter, IsPiece}
use pacman_posix.Map.Load.{map_load-Loads}
use pacman_posix.Posix.{
  World, Status, ok, error, stuck, continue, on_error, raise, ◌>>◌, sem_pacman_turn, sem_enemy_turn,
  sem_p1_done, sem_p2_done,
}
use pacman_posix.Shared.{
  SharedState, Environ, load_initial_priorities, initial_fields, is_too_big, copy_grid,
  copy_initial_positions, initialize_mutexes, initialize_semaphores, prepare_objects,
  destroy_mutexes, shared_state_initialize, set_semaphore,
}
use pacman_posix.Shared.Prepare.{placed_state, prepared, prepare_state_lem}
use pacman_posix.Shared.Priorities.{InRange, load_initial_priorities-InRange}
use pacman_posix.Shared.Grid.{StandsOn, x_of, y_of, placed_stands, not_too_big}

initialize_mutexes-at : (w : World SharedState) → (initialize_mutexes w).1.at ≡ w.at
unfolding initialize_mutexes
initialize_mutexes-at w = ground arith

abbrev reset_semaphores : SharedState → SharedState
reset_semaphores s = set_semaphore sem_p2_done 0 (
    set_semaphore sem_p1_done 0
      (set_semaphore sem_enemy_turn 0 (set_semaphore sem_pacman_turn 0 s)))

initialize_semaphores-at :
    (w : World SharedState)
    → (initialize_semaphores w).0 ≡ ok tt
    → (initialize_semaphores w).1.at ≡ reset_semaphores w.at
unfolding initialize_semaphores
initialize_semaphores-at w h = ground arith

-- A statement about the result of a call that succeeded.
abbrev IfOk : Status (Unit {0}) → Type 0 → Type 0
IfOk (ok _) P = P
IfOk error P = Unit
IfOk stuck P = Unit

IfOk-map : {P Q : Type 0} (s : Status (Unit {0})) → (P → Q) → IfOk s P → IfOk s Q
IfOk-map (ok u) f p = f p
IfOk-map error f p = tt
IfOk-map stuck f p = tt

IfOk-elim : {P : Type 0} (s : Status (Unit {0})) → s ≡ ok tt → IfOk s P → P
IfOk-elim (ok u) h p = p
IfOk-elim error h p = cc
IfOk-elim stuck h p = cc

objects-at_after :
    (w : World SharedState) (s : Status (Unit {0}))
    → (initialize_semaphores w).0 ≡ s
    → let r = on_error initialize_semaphores (destroy_mutexes >> raise) w in
      IfOk r.0 (r.1.at ≡ reset_semaphores w.at)
objects-at_after w (ok u) e = rw e (initialize_semaphores-at w e)
objects-at_after w error e = rw e tt
objects-at_after w stuck e = rw e tt

prepare_objects-at :
    (w : World SharedState) (s : Status (Unit {0}))
    → (initialize_mutexes w).0 ≡ s
    → IfOk (prepare_objects w).0 ((prepare_objects w).1.at ≡ reset_semaphores w.at)
unfolding prepare_objects
prepare_objects-at w (ok u) e =
    rw e (rw (initialize_mutexes-at w) at (objects-at_after (initialize_mutexes w).1 _ refl))
prepare_objects-at w error e = rw e tt
prepare_objects-at w stuck e = rw e tt

-- The state when the game starts.
pub record IsStart (max_ticks : ℤ) (s : SharedState) : Type 0 where
  pub tick : s.global_tick ≡ pos 0
  pub limit : s.max_ticks ≡ max_ticks
  pub running : s.game_over ≡ false
  pub lives : s.pacman_lives ≡ initial_lives
  pub no_collision : s.collision_detected ≡ false
  pub pacman_range : InRange s.prioridad_pacman
  pub enemy_range : InRange s.prioridad_enemy
  pub no_pacman_request : s.priority_request_active ≡ false
  pub no_enemy_request : s.enemy_priority_request_active ≡ false
  pub rows_fit : s.map_rows ≤ max_map_rows
  pub cols_fit : s.map_cols ≤ max_map_cols
  pub stands : (k : Piece) → IsPiece k → StandsOn s (letter k) (x_of s k) (y_of s k)
  pub turns :
      (s.sem_pacman_turn ≡ 0) × (s.sem_enemy_turn ≡ 0) × (s.sem_p1_done ≡ 0) × (s.sem_p2_done ≡ 0)

module _ (memory : ℕ → Bool) (files : FileSystem) (case_dir : Bytes) (map : Map)
    (good : map_load memory files case_dir empty_map ≡ accepted map) (getenv : Environ)
    (max_ticks : ℤ) where
  placed-IsStart :
      (a b : ℤ)
      → load_initial_priorities getenv ≡ some (a, b)
      → is_too_big map ≡ false
      → IsStart max_ticks (reset_semaphores (placed_state map max_ticks (a, b)))
  unfolding set_semaphore initial_fields copy_grid copy_initial_positions
  placed-IsStart a b e small =
      let (pacman_range, enemy_range) = load_initial_priorities-InRange getenv a b e in
      let (few_rows, few_cols) = not_too_big map max_ticks (a, b) small in
      record {
        tick = refl;
        limit = refl;
        running = refl;
        lives = refl;
        no_collision = refl;
        pacman_range = pacman_range;
        enemy_range = enemy_range;
        no_pacman_request = refl;
        no_enemy_request = refl;
        rows_fit = few_rows;
        cols_fit = few_cols;
        stands =
            placed_stands map max_ticks (a, b) memory files case_dir
              (map_load-Loads memory files case_dir map good) small;
        turns = (refl, refl, refl, refl);
      }

  IsStart-after :
      (o : Option (ℤ × ℤ)) (big : Bool) (w : World SharedState)
      → load_initial_priorities getenv ≡ o
      → is_too_big map ≡ big
      → let q = prepared o big map max_ticks w in
        let r = continue q.0 (λ _. prepare_objects) q.1 in IfOk r.0 (IsStart max_ticks r.1.at)
  IsStart-after none big w e f = tt
  IsStart-after (some p) true w e f = tt
  IsStart-after (some (a, b)) false w e f =
      let v : World SharedState = record w { at = placed_state map max_ticks (a, b) } in
      IfOk-map (prepare_objects v).0
        (λ q. subst (IsStart max_ticks) (sym q) (placed-IsStart a b e f))
        (prepare_objects-at v (initialize_mutexes v).0 refl)

  -- After `map_load` succeeded, a `shared_state_initialize` that succeeds leaves the state in which a
  -- game starts: tick 0 of `max_ticks`, three lives, no collision and no request pending, both
  -- priorities between 0 and 100, a grid of at most 64 by 64, every semaphore 0, and Pac-Man and each
  -- ghost inside the grid on the cell with its letter.
  pub shared_state_initialize-IsStart :
      (w : World SharedState)
      → (shared_state_initialize getenv map max_ticks w).0 ≡ ok tt
      → IsStart max_ticks (shared_state_initialize getenv map max_ticks w).1.at
  unfolding shared_state_initialize
  shared_state_initialize-IsStart w h =
      IfOk-elim _ h (rw (prepare_state_lem getenv map max_ticks w) (IsStart-after _ _ w refl refl))
