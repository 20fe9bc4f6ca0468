-- ===== src/Enemy/Parse.antt =====
-- P2's parser against P1's.
use pacman_posix.Prelude.{
  ◌≡◌, refl, Bool, true, false, Option, none, some, drop, length, if◌then◌else◌,
}
use pacman_posix.Prelude.Int.{ℤ}
use pacman_posix.Text.{Bytes, codes, streq, has_prefix}
use pacman_posix.Movement.{priority_prefix}
use pacman_posix.Pacman
use pacman_posix.Enemy.{
  EnemyInstruction, EnemyInstructionType, EnemyMoveDirection, moving, setting, parse_priority_value,
  parse_instruction,
}

abbrev pub type_of : Pacman.PacmanInstructionType → EnemyInstructionType
type_of Pacman.instruction_move = EnemyInstructionType.instruction_move
type_of Pacman.instruction_set_priority = EnemyInstructionType.instruction_set_priority

abbrev pub direction_of : Pacman.PacmanMoveDirection → EnemyMoveDirection
direction_of Pacman.move_up = EnemyMoveDirection.move_up
direction_of Pacman.move_down = EnemyMoveDirection.move_down
direction_of Pacman.move_left = EnemyMoveDirection.move_left
direction_of Pacman.move_right = EnemyMoveDirection.move_right

-- An instruction of P1 as one of P2.
abbrev pub as_enemy : Option Pacman.PacmanInstruction → Option EnemyInstruction
as_enemy none = none
as_enemy (some i) = some (record {
  type = type_of i.type;
  direction = direction_of i.direction;
  priority = i.priority;
  text = i.text;
})

setting_same : (line : Bytes) (p : Option ℤ) → setting line p ≡ as_enemy (Pacman.setting line p)
setting_same line none = refl
setting_same line (some p) = refl

same_by :
    (up down left right prefix : Bool) (line : Bytes) (p : Option ℤ)
    → (if up
        then moving line EnemyMoveDirection.move_up
        else if down
        then moving line EnemyMoveDirection.move_down
        else if left
        then moving line EnemyMoveDirection.move_left
        else if right
        then moving line EnemyMoveDirection.move_right
        else if prefix
        then setting line p
        else none)
      ≡ as_enemy (
          if up
          then Pacman.moving line Pacman.move_up
          else if down
          then Pacman.moving line Pacman.move_down
          else if left
          then Pacman.moving line Pacman.move_left
          else if right
          then Pacman.moving line Pacman.move_right
          else if prefix
          then Pacman.setting line p
          else none)
same_by true down left right prefix line p = refl
same_by false true left right prefix line p = refl
same_by false false true right prefix line p = refl
same_by false false false true prefix line p = refl
same_by false false false false true line p = setting_same line p
same_by false false false false false line p = refl

-- P1 and P2 read every line alike: the same lines are errors, and the same instructions come out of
-- the others.
pub parse_instruction_same :
    (line : Bytes) → parse_instruction line ≡ as_enemy (Pacman.parse_instruction line)
unfolding parse_instruction parse_priority_value Pacman.parse_instruction
    Pacman.parse_priority_value
parse_instruction_same line =
    same_by (streq line (codes "UP")) (streq line (codes "DOWN")) (streq line (codes "LEFT"))
      (streq line (codes "RIGHT")) (has_prefix priority_prefix line) line
      (parse_priority_value (drop (length priority_prefix) line))
