-- ===== src/Pacman/Moves.antt =====
-- Pac-Man's moves on the board.
use pacman_posix.Prelude.{
  ◌<◌, ◌≡◌, ◌≢◌, ◌⊎◌, inl, inr, refl, sym, subst, true, false, List, [], ◌∷◌, arith, Bool-cases,
}
use pacman_posix.Prelude.Int.{ℤ, pos, negsuc, pos_part, ◌≤ℤ◌, ◌+ℤ◌}
use pacman_posix.Posix.{Object, World, ok, local_mutex, priority_mutex, name, critical}
use pacman_posix.Shared.{SharedState}
use pacman_posix.Scheduler.Sections.{Section-outcome, Section-ok, Section-keeps}
use pacman_posix.Pacman.{
  PacmanInstruction, PacmanInstructionType, instruction_move, instruction_set_priority,
  PacmanMoveDirection, move_up, move_down, move_left, move_right, PacmanContext,
  is_wall_or_out_of_bounds, next_x, next_y, move, apply_move, ask_priority, process_type,
  process_instruction,
}

-- The cell (x, y) is on the board and is no wall.
pub record IsOpen (s : SharedState) (x y : ℤ) : Type 0 where
  pub right_of : pos 0 ≤ℤ x
  pub below : pos 0 ≤ℤ y
  pub row : pos_part y < s.map_rows
  pub col : pos_part x < s.map_cols
  pub no_wall : s.map_grid (pos_part y) (pos_part x) ≢ b'X'

pub IsOpen-cell :
    (s : SharedState) (x y : ℤ) → is_wall_or_out_of_bounds s x y ≡ false → IsOpen s x y
unfolding is_wall_or_out_of_bounds
IsOpen-cell s x y h = record {
  right_of = ground arith;
  below = ground arith;
  row = ground arith;
  col = ground arith;
  no_wall = λ q. ground arith;
}

closed_cell : (s : SharedState) (x y : ℤ) → is_wall_or_out_of_bounds s x y ≡ true → IsOpen s x y → ⊥
unfolding is_wall_or_out_of_bounds
closed_cell s x y h o =
    let a = o.right_of in
    let b = o.below in let c = o.row in let d = o.col in o.no_wall (ground arith)

-- The cell next to (x, y) in a direction: up is the row before.
abbrev pub target_x : PacmanMoveDirection → ℤ → ℤ
target_x move_left x = x +ℤ negsuc 0
target_x move_right x = x +ℤ pos 1
target_x direction x = x

abbrev pub target_y : PacmanMoveDirection → ℤ → ℤ
target_y move_up y = y +ℤ negsuc 0
target_y move_down y = y +ℤ pos 1
target_y direction y = y

add_zero : (x : ℤ) → x +ℤ pos 0 ≡ x
add_zero (pos n) = ground arith
add_zero (negsuc n) = ground arith

next_is_target :
    (d : PacmanMoveDirection) (c : PacmanContext)
    → (next_x d c ≡ target_x d c.x) × (next_y d c ≡ target_y d c.y)
unfolding pacman_posix.Pacman.movement_delta
next_is_target move_up c = (add_zero c.x, refl)
next_is_target move_down c = (add_zero c.x, refl)
next_is_target move_left c = (refl, add_zero c.y)
next_is_target move_right c = (refl, add_zero c.y)

-- A move to the next cell if that is open, and none otherwise; nothing else changes.
pub record Moved (direction : PacmanMoveDirection) (c d : PacmanContext) : Type 0 where
  pub place :
      (IsOpen c.shared (target_x direction c.x) (target_y direction c.y)
        × (d.x ≡ target_x direction c.x)
        × (d.y ≡ target_y direction c.y))
      ⊎ (¬ IsOpen c.shared (target_x direction c.x) (target_y direction c.y)
          × (d.x ≡ c.x)
          × (d.y ≡ c.y))
  pub same_shared : d.shared ≡ c.shared
  pub same_score : d.score ≡ c.score

pub move-Moved :
    (direction : PacmanMoveDirection) (c : PacmanContext) → Moved direction c (move direction c)
unfolding move
move-Moved direction c =
    let e = next_is_target direction c in
    elim (Bool-cases
      (is_wall_or_out_of_bounds c.shared (next_x direction c) (next_y direction c))) [
        | inl h ↦ rw h (record {
          place = inr (rw⁻¹ (e.0, e.1) (λ o. closed_cell c.shared _ _ h o), refl, refl);
          same_shared = refl;
          same_score = refl;
        })
        | inr h ↦ rw h (record {
          place = inl (rw⁻¹ (e.0, e.1) (IsOpen-cell c.shared _ _ h), e.0, e.1);
          same_shared = refl;
          same_score = refl;
        })
      ]

-- When `apply_move` returns PACMAN_OK, Pac-Man stands on the next cell in the direction if that is
-- on the board and no wall, and where it stood otherwise; the shared state and the score are as
-- before.
pub apply_move-Moved :
    (direction : PacmanMoveDirection) (w : World PacmanContext)
    → w.held (name local_mutex) ≡ false
    → (apply_move direction w).0 ≡ ok tt
    → Moved direction w.at (apply_move direction w).1.at
apply_move-Moved direction w free h =
    subst (Moved direction w.at)
      (sym (Section-ok (Section-outcome local_mutex (move direction) (λ _. tt) w free) h).1)
      (move-Moved direction w.at)

-- Pac-Man's own place.
abbrev pub Stands : PacmanContext → Type 0
Stands c = IsOpen c.shared c.x c.y

Moved-Stands :
    (direction : PacmanMoveDirection) (c d : PacmanContext)
    → Moved direction c d
    → Stands c
    → Stands d
Moved-Stands direction c d m s = elim m.place [
  | inl (free, ex, ey) ↦ rw (m.same_shared, ex, ey) free
  | inr (closed, ex, ey) ↦ rw (m.same_shared, ex, ey) s
]

move-Stands :
    (direction : PacmanMoveDirection) (c : PacmanContext) → Stands c → Stands (move direction c)
move-Stands direction c = Moved-Stands direction c (move direction c) (move-Moved direction c)

ask-Stands :
    (p : ℤ) (c : PacmanContext) → Stands c → Stands (record c { shared = ask_priority p c.shared })
unfolding ask_priority
ask-Stands p c s = record {
  right_of = s.right_of;
  below = s.below;
  row = s.row;
  col = s.col;
  no_wall = s.no_wall;
}

critical-Stands :
    (m : Object) (f : PacmanContext → PacmanContext)
    → ((c : PacmanContext) → Stands c → Stands (f c))
    → (w : World PacmanContext) → Stands w.at
    → Stands (critical m f (λ _. tt) w).1.at
critical-Stands m f k w p = elim (Bool-cases (w.held (name m))) [
  | inl e ↦ rw e p
  | inr e ↦ Section-keeps Stands (Section-outcome m f (λ _. tt) w e) (k w.at) p
]

process_type-Stands :
    (t : PacmanInstructionType) (i : PacmanInstruction) (w : World PacmanContext)
    → Stands w.at
    → Stands (process_type t i w).1.at
process_type-Stands instruction_move i =
    critical-Stands local_mutex (move i.direction) (move-Stands i.direction)
process_type-Stands instruction_set_priority i =
    critical-Stands priority_mutex (λ c. record c { shared = ask_priority i.priority c.shared })
      (ask-Stands i.priority)

-- The instructions of a game, one turn each.
pub process_all : List PacmanInstruction → World PacmanContext → World PacmanContext
process_all [] w = w
process_all (i ∷ is) w = process_all is (process_instruction i w).1

-- From an open cell on, Pac-Man stands on an open cell after every list of instructions, whichever
-- of the calls fail: it never enters a wall and never leaves the board.
pub process_all-IsOpen :
    (instructions : List PacmanInstruction) (w : World PacmanContext)
    → IsOpen w.at.shared w.at.x w.at.y
    → IsOpen
        (process_all instructions w).at.shared
        (process_all instructions w).at.x
        (process_all instructions w).at.y
unfolding process_all process_instruction
process_all-IsOpen [] w s = s
process_all-IsOpen (i ∷ is) w s =
    process_all-IsOpen is (process_instruction i w).1 (process_type-Stands i.type i w s)
