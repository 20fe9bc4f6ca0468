-- ===== src/Enemy.antt =====
-- src/enemy.c, process P2: the instructions of the ghosts, their moves, and the collisions that it
-- finds and publishes. The messages to the console are left out.
pub mod Parse
pub mod Moves
pub mod Collisions
pub mod Instructions
pub mod Context
pub mod Helpers
pub mod Threads
mod Tests
use pacman_posix.Prelude.{
  ℕ, zero, suc, ◌+◌, Bool, true, false, ◌&&◌, ◌||◌, not, Option, none, some, take, drop, length,
  leb, ◌==◌, update, if◌then◌else◌,
}
use pacman_posix.Prelude.Int.{ℤ, pos, negsuc, pos_part, ◌+ℤ◌, ltb_ℤ, eqb_ℤ}
use pacman_posix.Text.{Bytes, codes, streq, has_prefix, strtol, at_end}
use pacman_posix.Common.{min_priority, max_priority, ghost_count}
use pacman_posix.Movement.{priority_prefix}
use pacman_posix.Posix.{
  Object, M, ◌>>=◌, pure, critical, ghost_mutex, pacman_mutex, priority_mutex, state_mutex,
  collision_mutex,
}
use pacman_posix.Shared.{SharedState}

pub data EnemyInstructionType : Type 0 where
  instruction_move instruction_set_priority : EnemyInstructionType

pub data EnemyMoveDirection : Type 0 where
  move_up move_down move_left move_right : EnemyMoveDirection

-- `EnemyInstructionNode` without its link.
pub record EnemyInstruction : Type 0 where
  pub type : EnemyInstructionType
  pub direction : EnemyMoveDirection
  pub priority : ℤ
  pub text : Bytes

-- `none` where `parse_priority_value` returns PACMAN_ERROR.
unfoldable pub parse_priority_value : Bytes → Option ℤ
parse_priority_value text =
    let r = strtol text in
    if r.range_error
      || r.no_digits
      || not (at_end r.rest)
      || ltb_ℤ r.value min_priority
      || ltb_ℤ max_priority r.value
    then none
    else some r.value

abbrev pub moving : Bytes → EnemyMoveDirection → Option EnemyInstruction
moving line direction = some (record {
  type = instruction_move;
  direction = direction;
  priority = pos 0;
  text = take 63 line;
})

abbrev pub setting : Bytes → Option ℤ → Option EnemyInstruction
setting line none = none
setting line (some priority) = some (record {
  type = instruction_set_priority;
  direction = move_up;
  priority = priority;
  text = take 63 line;
})

-- `none` where `parse_instruction` returns PACMAN_ERROR.
unfoldable pub parse_instruction : Bytes → Option EnemyInstruction
parse_instruction line =
    if streq line (codes "UP")
    then moving line move_up
    else if streq line (codes "DOWN")
    then moving line move_down
    else if streq line (codes "LEFT")
    then moving line move_left
    else if streq line (codes "RIGHT")
    then moving line move_right
    else if has_prefix priority_prefix line
    then setting line (parse_priority_value (drop (length priority_prefix) line))
    else none

pub record EnemyPosition : Type 0 where
  pub x : ℤ
  pub y : ℤ

-- `EnemyContext`: the shared state, the last position of Pac-Man that the tracker has read, and the
-- positions of the ghosts.
pub record EnemyContext : Type 0 where
  pub shared : SharedState
  pub pacman_position : EnemyPosition
  pub ghosts : ℕ → EnemyPosition

unfoldable pub movement_delta : EnemyMoveDirection → ℤ × ℤ
movement_delta move_up = (pos 0, negsuc 0)
movement_delta move_down = (pos 0, pos 1)
movement_delta move_left = (negsuc 0, pos 0)
movement_delta move_right = (pos 1, pos 0)

unfoldable pub is_wall_or_out_of_bounds : SharedState → ℤ → ℤ → Bool
is_wall_or_out_of_bounds s x y =
    if ltb_ℤ x (pos 0)
      || ltb_ℤ y (pos 0)
      || leb s.map_rows (pos_part y)
      || leb s.map_cols (pos_part x)
    then true
    else s.map_grid (pos_part y) (pos_part x) == b'X'

abbrev pub next_position : EnemyMoveDirection → EnemyPosition → EnemyPosition
next_position direction p = record {
  x = p.x +ℤ (movement_delta direction).0;
  y = p.y +ℤ (movement_delta direction).1;
}

-- Between the calls on the mutex of `apply_ghost_move`, for ghost `i`.
unfoldable pub move_ghost : ℕ → EnemyMoveDirection → EnemyContext → EnemyContext
unfolding is_wall_or_out_of_bounds movement_delta
move_ghost i direction c =
    let next = next_position direction (c.ghosts i) in
    if is_wall_or_out_of_bounds c.shared next.x next.y
    then c
    else record c { ghosts = update c.ghosts i next }

abbrev pub apply_ghost_move : ℕ → EnemyMoveDirection → M EnemyContext (Unit {0})
apply_ghost_move i direction = critical ghost_mutex (move_ghost i direction) (λ _. tt)

-- Between the calls on the mutex of `request_enemy_priority_change`.
unfoldable pub ask_enemy_priority : ℤ → SharedState → SharedState
ask_enemy_priority priority s = record s {
  pending_priority_enemy = priority;
  enemy_priority_request_active = true;
}

abbrev pub request_enemy_priority_change : ℤ → M EnemyContext (Unit {0})
request_enemy_priority_change priority =
    critical priority_mutex (λ c. record c { shared = ask_enemy_priority priority c.shared })
      (λ _. tt)

abbrev pub process_ghost_type :
    EnemyInstructionType → ℕ → EnemyInstruction → M EnemyContext (Unit {0})
process_ghost_type instruction_set_priority ghost i = request_enemy_priority_change i.priority
process_ghost_type instruction_move ghost i = apply_ghost_move ghost i.direction

unfoldable pub process_ghost_instruction : ℕ → EnemyInstruction → M EnemyContext (Unit {0})
process_ghost_instruction ghost i = process_ghost_type i.type ghost i

abbrev pub read_global_tick : M EnemyContext ℤ
read_global_tick = critical state_mutex (λ c. c) (λ c. c.shared.global_tick)

-- Between the calls on the mutex of `publish_collision`.
unfoldable pub record_collision : ℕ → ℤ → SharedState → SharedState
record_collision ghost_id tick s = record s {
  collision_detected = true;
  collision_tick = tick;
  collision_ghost_id = pos ghost_id;
}

abbrev pub publish_collision : ℕ → ℤ → M EnemyContext (Unit {0})
publish_collision ghost_id tick =
    critical collision_mutex (λ c. record c { shared = record_collision ghost_id tick c.shared })
      (λ _. tt)

abbrev pub same_position : EnemyPosition → EnemyPosition → Bool
same_position p q = eqb_ℤ p.x q.x && eqb_ℤ p.y q.y

-- The second loop of `detect_collision`, from ghost `i` on with `left` to go: the ghost that it
-- returns at.
unfoldable pub first_hit : ℕ → ℕ → (ℕ → EnemyPosition) → EnemyPosition → Option ℕ
first_hit i zero ghosts pacman = none
first_hit i (suc left) ghosts pacman =
    let rest = first_hit (i + 1) left ghosts pacman in
    if same_position (ghosts i) pacman then some i else rest

abbrev pub publish_hit : Option ℕ → ℤ → M EnemyContext (Unit {0})
publish_hit none tick = pure tt
publish_hit (some i) tick = publish_collision (i + 1) tick

unfoldable pub detect_collision : M EnemyContext (Unit {0})
detect_collision = critical pacman_mutex (λ c. c) (λ c. c.pacman_position) >>= λ pacman.
    critical ghost_mutex (λ c. c) (λ c. c.ghosts) >>= λ ghosts.
    read_global_tick >>= λ tick. publish_hit (first_hit 0 ghost_count ghosts pacman) tick
