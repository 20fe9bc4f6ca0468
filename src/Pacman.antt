-- ===== src/Pacman.antt =====
-- src/pacman.c, process P1: the instructions that it reads, and how it carries one out. The
-- messages to the console are left out.
pub mod Parse
pub mod Moves
pub mod Queue
pub mod Threads
mod Tests
use pacman_posix.Prelude.{
  ℕ, ◌+◌, Bool, true, false, ◌&&◌, ◌||◌, not, List, [], ◌∷◌, Option, none, some, take, drop, length,
  ltb, leb, ◌==◌, if◌then◌else◌,
}
use pacman_posix.Prelude.Int.{ℤ, pos, negsuc, pos_part, ◌+ℤ◌, ltb_ℤ}
use pacman_posix.Text.{Bytes, codes, streq, has_prefix, strtol, at_end}
use pacman_posix.Common.{min_priority, max_priority}
use pacman_posix.Movement.{priority_prefix}
use pacman_posix.Posix.{Object, M, Status, ok, critical, local_mutex, priority_mutex}
use pacman_posix.Shared.{SharedState}

pub data PacmanInstructionType : Type 0 where
  instruction_move instruction_set_priority : PacmanInstructionType

pub data PacmanMoveDirection : Type 0 where
  move_up move_down move_left move_right : PacmanMoveDirection

-- `PacmanInstructionNode` without its link.
pub record PacmanInstruction : Type 0 where
  pub type : PacmanInstructionType
  pub direction : PacmanMoveDirection
  pub priority : ℤ
  pub text : Bytes

-- After the `memset` and the `snprintf` into 64 bytes.
abbrev pub blank_instruction : Bytes → PacmanInstruction
blank_instruction line = record {
  type = instruction_move;
  direction = move_up;
  priority = pos 0;
  text = take 63 line;
}

-- `none` where `parse_priority_value` returns PACMAN_ERROR.
unfoldable pub parse_priority_value : Bytes → Option ℤ
parse_priority_value text =
    let r = strtol text in
    if r.range_error
      || r.no_digits
      || not (at_end r.rest)
      || ltb_ℤ r.value min_priority
      || ltb_ℤ max_priority r.value
    then none
    else some r.value

abbrev pub moving : Bytes → PacmanMoveDirection → Option PacmanInstruction
moving line direction =
    some (record (blank_instruction line) { type = instruction_move; direction = direction })

abbrev pub setting : Bytes → Option ℤ → Option PacmanInstruction
setting line none = none
setting line (some priority) =
    some (record (blank_instruction line) { type = instruction_set_priority; priority = priority })

-- `none` where `parse_instruction` returns PACMAN_ERROR.
unfoldable pub parse_instruction : Bytes → Option PacmanInstruction
parse_instruction line =
    if streq line (codes "UP")
    then moving line move_up
    else if streq line (codes "DOWN")
    then moving line move_down
    else if streq line (codes "LEFT")
    then moving line move_left
    else if streq line (codes "RIGHT")
    then moving line move_right
    else if has_prefix priority_prefix line
    then setting line (parse_priority_value (drop (length priority_prefix) line))
    else none

-- `PacmanContext` for one thread: the shared state and the local position with the score.
pub record PacmanContext : Type 0 where
  pub shared : SharedState
  pub x : ℤ
  pub y : ℤ
  pub score : ℤ

unfoldable pub movement_delta : PacmanMoveDirection → ℤ × ℤ
movement_delta move_up = (pos 0, negsuc 0)
movement_delta move_down = (pos 0, pos 1)
movement_delta move_left = (negsuc 0, pos 0)
movement_delta move_right = (pos 1, pos 0)

unfoldable pub is_wall_or_out_of_bounds : SharedState → ℤ → ℤ → Bool
is_wall_or_out_of_bounds s x y =
    if ltb_ℤ x (pos 0)
      || ltb_ℤ y (pos 0)
      || leb s.map_rows (pos_part y)
      || leb s.map_cols (pos_part x)
    then true
    else s.map_grid (pos_part y) (pos_part x) == b'X'

abbrev pub next_x : PacmanMoveDirection → PacmanContext → ℤ
next_x direction c = c.x +ℤ (movement_delta direction).0

abbrev pub next_y : PacmanMoveDirection → PacmanContext → ℤ
next_y direction c = c.y +ℤ (movement_delta direction).1

-- Between the calls on the mutex of `apply_move`.
unfoldable pub move : PacmanMoveDirection → PacmanContext → PacmanContext
unfolding is_wall_or_out_of_bounds movement_delta
move direction c =
    if is_wall_or_out_of_bounds c.shared (next_x direction c) (next_y direction c)
    then c
    else record c { x = next_x direction c; y = next_y direction c }

abbrev pub apply_move : PacmanMoveDirection → M PacmanContext (Unit {0})
apply_move direction = critical local_mutex (move direction) (λ _. tt)

-- Between the calls on the mutex of `request_priority_change`.
unfoldable pub ask_priority : ℤ → SharedState → SharedState
ask_priority priority s = record s {
  pending_priority_pacman = priority;
  priority_request_active = true;
}

abbrev pub request_priority_change : ℤ → M PacmanContext (Unit {0})
request_priority_change priority =
    critical priority_mutex (λ c. record c { shared = ask_priority priority c.shared }) (λ _. tt)

abbrev pub process_type : PacmanInstructionType → PacmanInstruction → M PacmanContext (Unit {0})
process_type instruction_set_priority i = request_priority_change i.priority
process_type instruction_move i = apply_move i.direction

unfoldable pub process_instruction : PacmanInstruction → M PacmanContext (Unit {0})
process_instruction i = process_type i.type i
