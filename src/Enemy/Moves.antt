-- ===== src/Enemy/Moves.antt =====
-- The ghosts' moves on the board.
use pacman_posix.Prelude.{
  ℕ, ◌≡◌, inl, inr, Bool, true, false, List, [], ◌∷◌, ◌==◌, update, if◌then◌else◌, Bool-cases,
}
use pacman_posix.Prelude.Int.{ℤ}
use pacman_posix.Posix.{Object, World, ghost_mutex, priority_mutex, name, critical}
use pacman_posix.Shared.{SharedState}
use pacman_posix.Scheduler.Sections.{Section-outcome, Section-keeps}
use pacman_posix.Pacman.Moves.{IsOpen, IsOpen-cell}
use pacman_posix.Enemy.{
  EnemyInstruction, EnemyInstructionType, instruction_move, instruction_set_priority,
  EnemyMoveDirection, EnemyPosition, EnemyContext, is_wall_or_out_of_bounds, next_position,
  move_ghost, ask_enemy_priority, process_ghost_type, process_ghost_instruction,
}

-- Ghost `g` is on the board and in no wall.
abbrev pub IsPlaced : ℕ → EnemyContext → Type 0
IsPlaced g c = IsOpen c.shared (c.ghosts g).x (c.ghosts g).y

IsOpen-next :
    (s : SharedState) (p : EnemyPosition)
    → is_wall_or_out_of_bounds s p.x p.y ≡ false
    → IsOpen s p.x p.y
unfolding is_wall_or_out_of_bounds pacman_posix.Pacman.is_wall_or_out_of_bounds
IsOpen-next s p h = IsOpen-cell s p.x p.y h

-- The ghosts' instructions in the order in which `ghost_mutex` lets them through.
pub process_all_ghosts : List (ℕ × EnemyInstruction) → World EnemyContext → World EnemyContext
process_all_ghosts [] w = w
process_all_ghosts ((ghost, i) ∷ is) w =
    process_all_ghosts is (process_ghost_instruction ghost i w).1

module _ (g : ℕ) where
  update-IsPlaced :
      (c : EnemyContext) (i : ℕ) (p : EnemyPosition)
      → IsOpen c.shared p.x p.y
      → IsPlaced g c
      → IsPlaced g (record c { ghosts = update c.ghosts i p })
  update-IsPlaced c i p new old = go (i == g)
    where
      go :
          (b : Bool)
          → IsOpen c.shared (if b then p else c.ghosts g).x (if b then p else c.ghosts g).y
      go true = new
      go false = old

  move_ghost-IsPlaced :
      (i : ℕ) (d : EnemyMoveDirection) (c : EnemyContext)
      → IsPlaced g c
      → IsPlaced g (move_ghost i d c)
  unfolding move_ghost
  move_ghost-IsPlaced i d c old =
      let p = next_position d (c.ghosts i) in
      elim (Bool-cases (is_wall_or_out_of_bounds c.shared p.x p.y)) [
        | inl h ↦ rw h old
        | inr h ↦ rw h (update-IsPlaced c i p (IsOpen-next c.shared p h) old)
      ]

  ask-IsPlaced :
      (p : ℤ) (c : EnemyContext)
      → IsPlaced g c
      → IsPlaced g (record c { shared = ask_enemy_priority p c.shared })
  unfolding ask_enemy_priority
  ask-IsPlaced p c o = record {
    right_of = o.right_of;
    below = o.below;
    row = o.row;
    col = o.col;
    no_wall = o.no_wall;
  }

  critical-IsPlaced :
      (m : Object) (f : EnemyContext → EnemyContext)
      → ((c : EnemyContext) → IsPlaced g c → IsPlaced g (f c))
      → (w : World EnemyContext) → IsPlaced g w.at
      → IsPlaced g (critical m f (λ _. tt) w).1.at
  critical-IsPlaced m f k w p = elim (Bool-cases (w.held (name m))) [
    | inl e ↦ rw e p
    | inr e ↦ Section-keeps (IsPlaced g) (Section-outcome m f (λ _. tt) w e) (k w.at) p
  ]

  process_ghost_type-IsPlaced :
      (t : EnemyInstructionType) (ghost : ℕ) (i : EnemyInstruction) (w : World EnemyContext)
      → IsPlaced g w.at
      → IsPlaced g (process_ghost_type t ghost i w).1.at
  process_ghost_type-IsPlaced instruction_move ghost i =
      critical-IsPlaced ghost_mutex (move_ghost ghost i.direction)
        (move_ghost-IsPlaced ghost i.direction)
  process_ghost_type-IsPlaced instruction_set_priority ghost i =
      critical-IsPlaced priority_mutex
        (λ c. record c { shared = ask_enemy_priority i.priority c.shared })
        (ask-IsPlaced i.priority)

  -- A ghost that stands on an open cell stands on one after every sequence of instructions of the
  -- ghosts, in any order and whichever of the calls fail.
  pub process_all_ghosts-IsPlaced :
      (instructions : List (ℕ × EnemyInstruction)) (w : World EnemyContext)
      → IsPlaced g w.at
      → IsPlaced g (process_all_ghosts instructions w).at
  unfolding process_all_ghosts process_ghost_instruction
  process_all_ghosts-IsPlaced [] w old = old
  process_all_ghosts-IsPlaced ((ghost, i) ∷ is) w old =
      process_all_ghosts-IsPlaced is (process_ghost_instruction ghost i w).1
        (process_ghost_type-IsPlaced i.type ghost i w old)
