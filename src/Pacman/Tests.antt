-- ===== src/Pacman/Tests.antt =====
-- Pac-Man on the small board of `Map.Samples`, and two lines.
use pacman_posix.Prelude.{refl, true, false, List, [], ◌∷◌, arith}
use pacman_posix.Prelude.Int.{pos}
use pacman_posix.Text.{codes, streq, has_prefix, is_digit}
use pacman_posix.Posix.{World}
use pacman_posix.Map.Samples.{small_map}
use pacman_posix.Movement.{is_valid_instruction, is_digits, all_digits}
use pacman_posix.Shared.{zeroed, copy_grid, copy_cells}
use pacman_posix.Pacman.{
  PacmanInstruction, move_up, move_right, PacmanMoveDirection, PacmanContext, blank_instruction,
  apply_move, instruction_set_priority,
}
use pacman_posix.Pacman.Parse.{Parsed, is_valid_instruction-Parsed}
use pacman_posix.Pacman.Moves.{IsOpen, Moved, apply_move-Moved, process_all, process_all-IsOpen}

is_valid_instruction-Parsed_example : Parsed (codes "SET_PRIORITY 999")
is_valid_instruction-Parsed_example =
    is_valid_instruction-Parsed (codes "SET_PRIORITY 999")
      (unfold is_valid_instruction streq has_prefix is_digits all_digits is_digit in refl)

abbrev playing : World PacmanContext
playing = record {
  at = record { shared = copy_grid small_map zeroed; x = pos 1; y = pos 1; score = pos 0 };
  live = λ _. true;
  held = λ _. false;
  calls = 0;
  succeeds = λ _. true;
}

apply_move-Moved_example : Moved move_right playing.at (apply_move move_right playing).1.at
apply_move-Moved_example = apply_move-Moved move_right playing refl refl

abbrev instruction : PacmanMoveDirection → PacmanInstruction
instruction direction = record (blank_instruction []) { direction = direction }

abbrev asking : PacmanInstruction
asking = record (blank_instruction []) { type = instruction_set_priority; priority = pos 70 }

abbrev program : List PacmanInstruction
program = instruction move_right ∷ asking ∷ instruction move_up ∷ []

playing-IsOpen : IsOpen playing.at.shared (pos 1) (pos 1)
unfolding copy_grid copy_cells
playing-IsOpen = record {
  right_of = omega arith;
  below = omega arith;
  row = omega arith;
  col = omega arith;
  no_wall = λ q. omega arith;
}

process_all-IsOpen_example :
    IsOpen
      (process_all program playing).at.shared
      (process_all program playing).at.x
      (process_all program playing).at.y
process_all-IsOpen_example = process_all-IsOpen program playing playing-IsOpen
