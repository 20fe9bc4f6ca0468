-- ===== src/Pacman/Threads/Leads.antt =====
-- Where a list of instructions leads Pac-Man, and that carrying them out takes it there.
use pacman_posix.Prelude.{◌≡◌, inl, inr, refl, sym, List, [], ◌∷◌, ◌++◌}
use pacman_posix.Prelude.Int.{ℤ}
use pacman_posix.Shared.{SharedState}
use pacman_posix.Pacman.{
  PacmanInstruction, PacmanInstructionType, instruction_move, instruction_set_priority,
  PacmanContext, move, ask_priority,
}
use pacman_posix.Pacman.Moves.{IsOpen, target_x, target_y, move-Moved}
use pacman_posix.Pacman.Threads.{SameMap, carry_out, carry_out_type}

-- From (x, y) on, a list of instructions leads to a cell: each move enters the next cell in its
-- direction if that is on the board and no wall, and nothing else moves Pac-Man.
pub data Leads (s : SharedState) (x y : ℤ) : List PacmanInstruction → ℤ → ℤ → Type 0 where
  nowhere : Leads s x y [] x y
  enters :
      {is : List PacmanInstruction} {a b : ℤ} (i : PacmanInstruction)
      → Leads s x y is a b
      → i.type ≡ instruction_move
      → IsOpen s (target_x i.direction a) (target_y i.direction b)
      → Leads s x y (is ++ i ∷ []) (target_x i.direction a) (target_y i.direction b)
  is_blocked :
      {is : List PacmanInstruction} {a b : ℤ} (i : PacmanInstruction)
      → Leads s x y is a b
      → i.type ≡ instruction_move
      → ¬ IsOpen s (target_x i.direction a) (target_y i.direction b)
      → Leads s x y (is ++ i ∷ []) a b
  asks :
      {is : List PacmanInstruction} {a b : ℤ} (i : PacmanInstruction)
      → Leads s x y is a b
      → i.type ≡ instruction_set_priority
      → Leads s x y (is ++ i ∷ []) a b

SameMap-IsOpen : (s t : SharedState) (x y : ℤ) → SameMap s t → IsOpen s x y → IsOpen t x y
SameMap-IsOpen s t x y (rows, cols, grid) o = record {
  right_of = o.right_of;
  below = o.below;
  row = rw rows o.row;
  col = rw cols o.col;
  no_wall = rw grid o.no_wall;
}

SameMap-back : (s t : SharedState) → SameMap s t → SameMap t s
SameMap-back s t (rows, cols, grid) = (sym rows, sym cols, sym grid)

-- What `carry_out` does to the place, and that it leaves the map alone.
module _ (s : SharedState) (x y : ℤ) (is : List PacmanInstruction) where
  move-Leads :
      (i : PacmanInstruction) (c : PacmanContext)
      → i.type ≡ instruction_move
      → SameMap s c.shared
      → Leads s x y is c.x c.y
      → Leads s x y (is ++ i ∷ []) (move i.direction c).x (move i.direction c).y
  move-Leads i c e same h = elim (move-Moved i.direction c).place [
    | inl (open_cell, ex, ey) ↦
        rw (ex, ey)
          (Leads.enters i h e
            (SameMap-IsOpen c.shared s _ _ (SameMap-back s c.shared same) open_cell))
    | inr (closed_cell, ex, ey) ↦
        rw (ex, ey)
          (Leads.is_blocked i h e (λ o. closed_cell (SameMap-IsOpen s c.shared _ _ same o)))
  ]

  carry_out_type-Leads :
      (t : PacmanInstructionType) (i : PacmanInstruction) (c : PacmanContext)
      → i.type ≡ t
      → SameMap s c.shared
      → Leads s x y is c.x c.y
      → Leads s x y (is ++ i ∷ []) (carry_out_type t i c).x (carry_out_type t i c).y
  carry_out_type-Leads instruction_move i c e same h = move-Leads i c e same h
  carry_out_type-Leads instruction_set_priority i c e same h = Leads.asks i h e

  pub carry_out-Leads :
      (i : PacmanInstruction) (c : PacmanContext)
      → SameMap s c.shared
      → Leads s x y is c.x c.y
      → Leads s x y (is ++ i ∷ []) (carry_out i c).x (carry_out i c).y
  unfolding carry_out
  carry_out-Leads i c same h = carry_out_type-Leads i.type i c refl same h

carry_out_type-SameMap :
    (s : SharedState) (t : PacmanInstructionType) (i : PacmanInstruction) (c : PacmanContext)
    → SameMap s c.shared
    → SameMap s (carry_out_type t i c).shared
unfolding ask_priority
carry_out_type-SameMap s instruction_move i c same =
    rw ((move-Moved i.direction c).same_shared) same
carry_out_type-SameMap s instruction_set_priority i c same = same

pub carry_out-SameMap :
    (s : SharedState) (i : PacmanInstruction) (c : PacmanContext)
    → SameMap s c.shared
    → SameMap s (carry_out i c).shared
unfolding carry_out
carry_out-SameMap s i c same = carry_out_type-SameMap s i.type i c same
