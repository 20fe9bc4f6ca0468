-- ===== src/Shared/Grid.antt =====
-- The state at the start of a game: the map is copied cell by cell, and each piece stands on the
-- cell that holds its letter.
use pacman_posix.Prelude.{
  ℕ, suc, ◌≤◌, ◌<◌, ◌≡◌, refl, ap, subst, ◌∙◌, Bool, false, none, some, List, [], ◌∷◌, length,
  get_or, get_elem?, All, arith, some_injective,
}
use pacman_posix.Prelude.Int.{ℤ, pos, to_int_small}
use pacman_posix.Text.{Bytes}
use pacman_posix.Common.{Position, max_map_rows, max_map_cols}
use pacman_posix.Environment.{FileSystem}
use pacman_posix.Map.{Map}
use pacman_posix.Map.Cells.{Piece, letter, IsPiece, Holds}
use pacman_posix.Map.Load.{Loads}
use pacman_posix.Map.Validate.{place_of}
use pacman_posix.Shared.{SharedState, is_too_big, copy_cells, copy_grid, copy_initial_positions}
use pacman_posix.Shared.Prepare.{placed_state}

get_or-get_elem? {ℓ} :
    {A : Type ℓ} (xs : List A) (i : ℕ) (x d : A) → get_elem? xs i ≡ some x → get_or xs i d ≡ x
get_or-get_elem? [] i x d h = cc
get_or-get_elem? (y ∷ xs) ℕ.zero x d h = some_injective h
get_or-get_elem? (y ∷ xs) (suc i) x d h = get_or-get_elem? xs i x d h

get_elem?-lt {ℓ} :
    {A : Type ℓ} (xs : List A) (i : ℕ) (x : A) → get_elem? xs i ≡ some x → i < length xs
get_elem?-lt [] i x h = cc
get_elem?-lt (y ∷ xs) ℕ.zero x h = omega arith
get_elem?-lt (y ∷ xs) (suc i) x h = omega (arith, get_elem?-lt xs i x h)

All-get {ℓ κ} :
    {A : Type ℓ} (P : A → Type κ) (xs : List A) (i : ℕ) (x : A)
    → All P xs
    → get_elem? xs i ≡ some x
    → P x
All-get P [] i x a h = cc
All-get P (y ∷ xs) ℕ.zero x a h = subst P (some_injective h) a.0
All-get P (y ∷ xs) (suc i) x a h = All-get P xs i x a.1 h

-- A piece stands at (x, y), inside the grid, on a cell with letter `c`.
pub record StandsOn (s : SharedState) (c : ℕ) (x y : ℤ) : Type 0 where
  pub col : ℕ
  pub row : ℕ
  pub x_is : x ≡ pos col
  pub y_is : y ≡ pos row
  pub in_rows : row < s.map_rows
  pub in_cols : col < s.map_cols
  pub cell : s.map_grid row col ≡ c

abbrev pub x_of : SharedState → Piece → ℤ
x_of s none = s.pacman_x
x_of s (some i) = s.ghost_x i

abbrev pub y_of : SharedState → Piece → ℤ
y_of s none = s.pacman_y
y_of s (some i) = s.ghost_y i

module _ (map : Map) (max_ticks : ℤ) (p : ℤ × ℤ) where
  placed_x : (k : Piece) → IsPiece k → x_of (placed_state map max_ticks p) k ≡ (place_of map k).col
  unfolding copy_initial_positions
  placed_x none h = refl
  placed_x (some i) h = ground arith

  placed_y : (k : Piece) → IsPiece k → y_of (placed_state map max_ticks p) k ≡ (place_of map k).row
  unfolding copy_initial_positions
  placed_y none h = refl
  placed_y (some i) h = ground arith

  placed_cell :
      (row col : ℕ)
      → row < map.rows
      → col < map.cols
      → (placed_state map max_ticks p).map_grid row col ≡ get_or (get_or map.cells row []) col 0
  unfolding copy_initial_positions copy_grid copy_cells
  placed_cell row col h k = ground arith

  pub placed_size :
      ((placed_state map max_ticks p).map_rows ≡ map.rows)
      × ((placed_state map max_ticks p).map_cols ≡ map.cols)
  unfolding copy_initial_positions copy_grid
  placed_size = (refl, refl)

  pub not_too_big : is_too_big map ≡ false → (map.rows ≤ max_map_rows) × (map.cols ≤ max_map_cols)
  unfolding is_too_big
  not_too_big h = ground arith

  module _ {c : ℕ} {at : Position} (h : Holds map.cells c at) where
    holds_row : map.rows ≡ length map.cells → h.row < map.rows
    holds_row e = omega (arith, e, get_elem?-lt map.cells h.row h.line h.in_row)

    holds_col : All (λ line. length line ≡ map.cols) map.cells → h.col < map.cols
    holds_col even =
        let size =
          All-get (λ (line : Bytes). length line ≡ map.cols) map.cells h.row h.line even h.in_row in
        omega (arith, size, get_elem?-lt h.line h.col c h.in_col)

    holds_cell : get_or (get_or map.cells h.row []) h.col 0 ≡ c
    holds_cell =
        ap (λ (l : Bytes). get_or l h.col 0) (get_or-get_elem? map.cells h.row h.line [] h.in_row)
        ∙ get_or-get_elem? h.line h.col c 0 h.in_col

  -- Each piece stands on its letter in the state that is made from a loaded map.
  pub placed_stands :
      (memory : ℕ → Bool) (files : FileSystem) (case_dir : Bytes)
      → Loads memory files case_dir map
      → is_too_big map ≡ false
      → (k : Piece) → IsPiece k
      → StandsOn
          (placed_state map max_ticks p)
          (letter k)
          (x_of (placed_state map max_ticks p) k)
          (y_of (placed_state map max_ticks p) k)
  placed_stands memory files case_dir l small k h =
      let holds = l.places k h in
      let row_lt = holds_row holds l.rows_count in
      let col_lt = holds_col holds l.rectangle.even in
      let (few_rows, few_cols) = not_too_big small in
      record {
        col = holds.col;
        row = holds.row;
        x_is =
            placed_x k h
            ∙ ap (λ (q : Position). q.col) holds.place
            ∙ to_int_small holds.col (omega (arith, col_lt, few_cols));
        y_is =
            placed_y k h
            ∙ ap (λ (q : Position). q.row) holds.place
            ∙ to_int_small holds.row (omega (arith, row_lt, few_rows));
        in_rows = rw (placed_size.0) row_lt;
        in_cols = rw (placed_size.1) col_lt;
        cell = placed_cell holds.row holds.col row_lt col_lt ∙ holds_cell holds;
      }
