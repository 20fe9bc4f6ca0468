-- ===== src/Enemy/Tests.antt =====
-- The ghosts on the small board of `Map.Samples`.
use pacman_posix.Prelude.{ℕ, ◌+◌, ◌≡◌, refl, true, false, List, [], ◌∷◌, arith}
use pacman_posix.Prelude.Int.{pos}
use pacman_posix.Text.{codes}
use pacman_posix.Posix.{World}
use pacman_posix.Map.Samples.{small_map}
use pacman_posix.Shared.{zeroed, copy_grid, copy_cells}
use pacman_posix.Pacman
use pacman_posix.Enemy.{
  EnemyInstruction, instruction_move, instruction_set_priority, move_left, move_up, EnemyPosition,
  EnemyContext, parse_instruction, first_hit, detect_collision,
}
use pacman_posix.Enemy.Parse.{as_enemy, parse_instruction_same}
use pacman_posix.Enemy.Moves.{IsPlaced, process_all_ghosts, process_all_ghosts-IsPlaced}
use pacman_posix.Enemy.Collisions.{Detected, detect_collision-Detected}

abbrev cell : ℕ → ℕ → EnemyPosition
cell x y = record { x = pos x; y = pos y }

-- Pac-Man stands on the cell of the third ghost.
abbrev hunting : World EnemyContext
hunting = record {
  at = record {
    shared = copy_grid small_map zeroed;
    pacman_position = cell 4 1;
    ghosts = λ i. cell (i + 2) 1;
  };
  live = λ _. true;
  held = λ _. false;
  calls = 0;
  succeeds = λ _. true;
}

parse_instruction_same_example :
    parse_instruction (codes "SET_PRIORITY 9")
    ≡ as_enemy (Pacman.parse_instruction (codes "SET_PRIORITY 9"))
parse_instruction_same_example = parse_instruction_same (codes "SET_PRIORITY 9")

hunting-IsPlaced : IsPlaced 0 hunting.at
unfolding copy_grid copy_cells
hunting-IsPlaced = record {
  right_of = omega arith;
  below = omega arith;
  row = omega arith;
  col = omega arith;
  no_wall = λ q. omega arith;
}

abbrev instructions : List (ℕ × EnemyInstruction)
instructions =
    (0, record { type = instruction_move; direction = move_left; priority = pos 0; text = [] })
    ∷ (
      2,
      record { type = instruction_set_priority; direction = move_up; priority = pos 10; text = [] },
    )
    ∷ []

process_all_ghosts-IsPlaced_example : IsPlaced 0 (process_all_ghosts instructions hunting).at
process_all_ghosts-IsPlaced_example =
    process_all_ghosts-IsPlaced 0 instructions hunting hunting-IsPlaced

detect_collision-Detected_example : Detected hunting.at (detect_collision hunting).1.at
detect_collision-Detected_example =
    detect_collision-Detected hunting (refl, refl, refl, refl)
      (unfold detect_collision first_hit in refl)
