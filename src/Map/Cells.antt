-- ===== src/Map/Cells.antt =====
-- What a good map is, said of the grid alone: its shape, its cells, and its five pieces.
use pacman_posix.Prelude.{
  ℕ, ◌+◌, ◌≤◌, ◌<◌, ◌≡◌, ◌⊎◌, List, [], ◌∷◌, ◌++◌, Option, none, some, All, length, get_elem?, ◌==◌,
  if◌then◌else◌, refl,
}
use pacman_posix.Prelude.Int.{to_int}
use pacman_posix.Text.{Bytes}
use pacman_posix.Common.{Position, ghost_count}

-- A piece is Pac-Man (`none`) or a ghost by its index.
abbrev pub Piece : Type 0
Piece = Option ℕ

abbrev pub letter : Piece → ℕ
letter none = b'P'
letter (some i) = b'A' + i

abbrev pub IsPiece : Piece → Type 0
IsPiece none = Unit {0}
IsPiece (some i) = i < ghost_count

abbrev pub IsCell : ℕ → Type 0
IsCell c = (c ≡ b'X') ⊎ (c ≡ b'O') ⊎ (c ≡ b'P') ⊎ ((b'A' ≤ c) × (c ≤ b'D'))

abbrev pub count : ℕ → Bytes → ℕ
count x [] = 0
count x (c ∷ cs) = (if c == x then 1 else 0) + count x cs

abbrev pub count_grid : ℕ → List Bytes → ℕ
count_grid x [] = 0
count_grid x (line ∷ rest) = count x line + count_grid x rest

-- A position names a cell of the grid that holds `x`.
pub record Holds (grid : List Bytes) (x : ℕ) (p : Position) : Type 0 where
  pub row : ℕ
  pub col : ℕ
  pub line : Bytes
  pub in_row : get_elem? grid row ≡ some line
  pub in_col : get_elem? line col ≡ some x
  pub place : p ≡ record { row = to_int row; col = to_int col }

-- A rectangle with at least one cell.
pub record IsRectangle (cols : ℕ) (grid : List Bytes) : Type 0 where
  pub some_rows : 0 < length grid
  pub some_cols : 0 < cols
  pub even : All (λ line. length line ≡ cols) grid

-- Only known cells, and each piece exactly once.
pub record IsBoard (grid : List Bytes) : Type 0 where
  pub known : All (λ line. All IsCell line) grid
  pub once : (k : Piece) → IsPiece k → count_grid (letter k) grid ≡ 1

pub get_elem?-middle {ℓ} :
    {A : Type ℓ} (xs ys : List A) (y : A) → get_elem? (xs ++ (y ∷ ys)) (length xs) ≡ some y
get_elem?-middle [] ys y = refl
get_elem?-middle (x ∷ xs) ys y = get_elem?-middle xs ys y
