-- ===== src/Shared.antt =====
-- src/shared.c and include/shared.h: the state that the three processes share, its initial value
-- from the map and the environment variables, and the life of its mutexes and semaphores.
pub mod Priorities
pub mod Prepare
pub mod Grid
pub mod Start
pub mod Objects
pub mod Memory
mod Tests
use pacman_posix.Prelude.{
  ℕ, ◌+◌, Bool, true, false, ◌||◌, not, List, [], ◌∷◌, Option, none, some, length, ltb, get_or,
  ◌==◌, if◌then◌else◌,
}
use pacman_posix.Prelude.Int.{ℤ, pos, negsuc, ltb_ℤ}
use pacman_posix.Text.{Bytes, codes, strtol, at_end}
use pacman_posix.Common.{
  Position, initial_lives, default_pacman_priority, default_enemy_priority, min_priority,
  max_priority, max_map_rows, max_map_cols,
}
use pacman_posix.Map.{Map}
use pacman_posix.Posix.{
  Object, M, ◌>>=◌, ◌>>◌, pure, raise, on_error, modify, when, call, init, destroy,
  mutex_attributes, state_mutex, priority_mutex, collision_mutex, sem_pacman_turn, sem_enemy_turn,
  sem_p1_done, sem_p2_done,
}

-- `shared_state_t` without its mutexes, which stand in `World`; a semaphore is its value.
pub record SharedState : Type 0 where
  pub global_tick : ℤ
  pub max_ticks : ℤ
  pub game_over : Bool
  pub pacman_x : ℤ
  pub pacman_y : ℤ
  pub pacman_score : ℤ
  pub pacman_lives : ℤ
  pub ghost_x : ℕ → ℤ
  pub ghost_y : ℕ → ℤ
  pub collision_detected : Bool
  pub collision_tick : ℤ
  pub collision_ghost_id : ℤ
  pub prioridad_pacman : ℤ
  pub prioridad_enemy : ℤ
  pub pending_priority_pacman : ℤ
  pub priority_request_active : Bool
  pub pending_priority_enemy : ℤ
  pub enemy_priority_request_active : Bool
  pub map_rows : ℕ
  pub map_cols : ℕ
  pub map_grid : ℕ → ℕ → ℕ
  pub sem_pacman_turn : ℕ
  pub sem_enemy_turn : ℕ
  pub sem_p1_done : ℕ
  pub sem_p2_done : ℕ

-- `memset(state, 0, sizeof(*state))`
abbrev pub zeroed : SharedState
zeroed = record {
  global_tick = pos 0;
  max_ticks = pos 0;
  game_over = false;
  pacman_x = pos 0;
  pacman_y = pos 0;
  pacman_score = pos 0;
  pacman_lives = pos 0;
  ghost_x = λ _. pos 0;
  ghost_y = λ _. pos 0;
  collision_detected = false;
  collision_tick = pos 0;
  collision_ghost_id = pos 0;
  prioridad_pacman = pos 0;
  prioridad_enemy = pos 0;
  pending_priority_pacman = pos 0;
  priority_request_active = false;
  pending_priority_enemy = pos 0;
  enemy_priority_request_active = false;
  map_rows = 0;
  map_cols = 0;
  map_grid = λ _ _. 0;
  sem_pacman_turn = 0;
  sem_enemy_turn = 0;
  sem_p1_done = 0;
  sem_p2_done = 0;
}

-- The environment: `none` where `getenv` returns NULL.
abbrev pub Environ : Type 0
Environ = Bytes → Option Bytes

-- The conversion of a set, non-empty variable.
unfoldable pub parse_priority_text : Bytes → Option ℤ
parse_priority_text text =
    let r = strtol text in
    if r.range_error
      || r.no_digits
      || not (at_end r.rest)
      || ltb_ℤ r.value min_priority
      || ltb_ℤ max_priority r.value
    then none
    else some r.value

-- `parse_priority_env`, on the result of `getenv`: `none` where it returns PACMAN_ERROR.
unfoldable pub parse_priority_env : Option Bytes → ℤ → Option ℤ
parse_priority_env none default_value = some default_value
parse_priority_env (some []) default_value = some default_value
parse_priority_env (some (c ∷ cs)) default_value = parse_priority_text (c ∷ cs)

-- The pair of priorities, Pac-Man's first.
abbrev pub pair : ℤ → Option ℤ → Option (ℤ × ℤ)
pair p none = none
pair p (some e) = some (p, e)

abbrev pub second : Option ℤ → Option ℤ → Option (ℤ × ℤ)
second none e = none
second (some p) e = pair p e

unfoldable pub load_initial_priorities : Environ → Option (ℤ × ℤ)
load_initial_priorities getenv =
    second (parse_priority_env (getenv (codes "PACMAN_PRIORITY")) default_pacman_priority)
      (parse_priority_env (getenv (codes "ENEMY_PRIORITY")) default_enemy_priority)

-- The two loops of `copy_map_to_shared`: the cells of the map, and what was there elsewhere.
unfoldable pub copy_cells : Map → (ℕ → ℕ → ℕ) → ℕ → ℕ → ℕ
copy_cells map old row col =
    if ltb row map.rows
    then if ltb col map.cols then get_or (get_or map.cells row []) col 0 else old row col
    else old row col

unfoldable pub copy_grid : Map → SharedState → SharedState
copy_grid map s = record s {
  map_rows = map.rows;
  map_cols = map.cols;
  map_grid = copy_cells map s.map_grid;
}

-- `map->rows > PACMAN_MAX_MAP_ROWS || map->cols > PACMAN_MAX_MAP_COLS`
unfoldable pub is_too_big : Map → Bool
is_too_big map = ltb max_map_rows map.rows || ltb max_map_cols map.cols

unfoldable pub copy_map_to_shared : Map → M SharedState (Unit {0})
copy_map_to_shared map = if is_too_big map then raise else modify (copy_grid map)

unfoldable pub copy_initial_positions : Map → SharedState → SharedState
copy_initial_positions map s = record s {
  pacman_x = map.pacman_start.col;
  pacman_y = map.pacman_start.row;
  ghost_x = λ i. if ltb i 4 then (map.ghost_starts i).col else s.ghost_x i;
  ghost_y = λ i. if ltb i 4 then (map.ghost_starts i).row else s.ghost_y i;
}

-- The label `fail` of `initialize_mutexes`, with the flags at the `goto`.
unfoldable pub fail_mutexes : Bool → Bool → Bool → M SharedState (Unit {0})
fail_mutexes priority_initialized state_initialized attr_initialized =
    when priority_initialized (destroy priority_mutex)
    >> when state_initialized (destroy state_mutex)
    >> when attr_initialized (destroy mutex_attributes)
    >> raise

unfoldable pub initialize_mutexes : M SharedState (Unit {0})
unfolding fail_mutexes
initialize_mutexes =
    init mutex_attributes
    >> on_error call (fail_mutexes false false true)
    >> on_error (init state_mutex) (fail_mutexes false false true)
    >> on_error (init priority_mutex) (fail_mutexes false true true)
    >> on_error (init collision_mutex) (fail_mutexes true true true)
    >> destroy mutex_attributes

-- The label `fail` of `initialize_semaphores`.
unfoldable pub fail_semaphores : Bool → Bool → Bool → M SharedState (Unit {0})
fail_semaphores p1_initialized enemy_initialized pacman_initialized =
    when p1_initialized (destroy sem_p1_done)
    >> when enemy_initialized (destroy sem_enemy_turn)
    >> when pacman_initialized (destroy sem_pacman_turn)
    >> raise

-- The value of one of the four semaphores.
unfoldable pub set_semaphore : Object → ℕ → SharedState → SharedState
set_semaphore sem_pacman_turn n s = record s { sem_pacman_turn = n }
set_semaphore sem_enemy_turn n s = record s { sem_enemy_turn = n }
set_semaphore sem_p1_done n s = record s { sem_p1_done = n }
set_semaphore sem_p2_done n s = record s { sem_p2_done = n }
set_semaphore _ n s = s

abbrev pub initialize_semaphore : Object → ℕ → M SharedState (Unit {0})
initialize_semaphore semaphore value = init semaphore >> modify (set_semaphore semaphore value)

unfoldable pub initialize_semaphores : M SharedState (Unit {0})
unfolding fail_semaphores
initialize_semaphores =
    initialize_semaphore sem_pacman_turn 0
    >> on_error (initialize_semaphore sem_enemy_turn 0) (fail_semaphores false false true)
    >> on_error (initialize_semaphore sem_p1_done 0) (fail_semaphores false true true)
    >> on_error (initialize_semaphore sem_p2_done 0) (fail_semaphores true true true)

-- The fields that `shared_state_initialize` sets before the map is copied.
unfoldable pub initial_fields : ℤ → ℤ × ℤ → SharedState → SharedState
initial_fields max_ticks (pacman_priority, enemy_priority) s = record s {
  global_tick = pos 0;
  max_ticks = max_ticks;
  game_over = false;
  pacman_score = pos 0;
  pacman_lives = initial_lives;
  collision_detected = false;
  collision_tick = negsuc 0;
  collision_ghost_id = negsuc 0;
  prioridad_pacman = pacman_priority;
  prioridad_enemy = enemy_priority;
  pending_priority_pacman = pacman_priority;
  pending_priority_enemy = enemy_priority;
  priority_request_active = false;
  enemy_priority_request_active = false;
}

abbrev pub or_error : Option (ℤ × ℤ) → M SharedState (ℤ × ℤ)
or_error none = raise
or_error (some p) = pure p

abbrev pub destroy_mutexes : M SharedState (Unit {0})
destroy_mutexes = destroy state_mutex >> destroy priority_mutex >> destroy collision_mutex

-- The body of `shared_state_initialize` up to the mutexes.
unfoldable pub prepare_state : Environ → Map → ℤ → M SharedState (Unit {0})
prepare_state getenv map max_ticks =
    (modify λ _. zeroed)
    >> (or_error (load_initial_priorities getenv) >>= λ priorities.
        modify (initial_fields max_ticks priorities))
    >> copy_map_to_shared map
    >> modify (copy_initial_positions map)

-- What follows: the mutexes, the semaphores, and the mutexes destroyed if the latter fail.
unfoldable pub prepare_objects : M SharedState (Unit {0})
prepare_objects = initialize_mutexes >> on_error initialize_semaphores (destroy_mutexes >> raise)

unfoldable pub shared_state_initialize : Environ → Map → ℤ → M SharedState (Unit {0})
shared_state_initialize getenv map max_ticks = prepare_state getenv map max_ticks >> prepare_objects

unfoldable pub destroy_sync_objects : M SharedState (Unit {0})
destroy_sync_objects =
    destroy sem_pacman_turn
    >> destroy sem_enemy_turn
    >> destroy sem_p1_done
    >> destroy sem_p2_done
    >> destroy_mutexes
