-- ===== src/Map.antt =====
-- src/map.c and include/map.h: P0 reads map.txt into a grid, checks its shape and its cells, and
-- finds where Pac-Man and the four ghosts start.
pub mod Cells
pub mod Scan
pub mod Rows
pub mod Validate
pub mod Load
pub mod Samples
mod Tests
use pacman_posix.Prelude.{
  ℕ, suc, ◌+◌, ◌-◌, Bool, true, false, ◌&&◌, ◌||◌, not, List, [], ◌∷◌, ◌++◌, Option, none, some,
  take, length, ltb, leb, ◌==◌, if◌then◌else◌, update,
}
use pacman_posix.Prelude.Int.{ℤ, pos, to_int}
use pacman_posix.Text.{Bytes, codes, c_string, fgets_all, strip_end}
use pacman_posix.Environment.{File, FileSystem, build_path}
use pacman_posix.Common.{Position, ghost_count}

pub record Map : Type 0 where
  pub cells : List Bytes
  pub rows : ℕ
  pub cols : ℕ
  pub pacman_start : Position
  pub ghost_starts : ℕ → Position

abbrev origin : Position
origin = record { row = pos 0; col = pos 0 }

-- `Map map = {0}` in `main`.
abbrev pub empty_map : Map
empty_map = record {
  cells = [];
  rows = 0;
  cols = 0;
  pacman_start = origin;
  ghost_starts = λ _. origin;
}

-- Why `map_load` returns PACMAN_ERROR, with what its message shows.
pub data MapError : Type 0 where
  path_too_long cannot_open read_failed no_memory no_rows : MapError
  empty_line : (line_number : ℕ) → MapError
  not_rectangular : (line_number expected received : ℕ) → MapError
  invalid_cell : (cell row col : ℕ) → MapError
  pacman_found : (count : ℕ) → MapError
  ghost_found : (ghost count : ℕ) → MapError

-- What a step of the loader returns.
pub data Checked (A : Type 0) : Type 0 where
  rejected : (reason : MapError) → Checked A
  accepted : (result : A) → Checked A

infixl 5 ◌>>=◌
abbrev pub ◌>>=◌ : {A B : Type 0} → Checked A → (A → Checked B) → Checked B
rejected reason >>= next = rejected reason
accepted result >>= next = next result

unfoldable pub is_newline : ℕ → Bool
is_newline c = c == b'\n' || c == b'\r'

-- The text that is left; its length is what the function returns.
unfoldable pub strip_line_ending : Bytes → Bytes
strip_line_ending line = take (strip_end is_newline line (length line)) line

-- The first row fixes the width.
unfoldable pub validate_row_width : Map → ℕ → ℕ → Checked Map
validate_row_width map width line_number =
    if width == 0
    then rejected (empty_line line_number)
    else if map.rows == 0
    then accepted (record map { cols = width })
    else if not (width == map.cols)
    then rejected (not_rectangular line_number map.cols width)
    else accepted map

-- `memory` says whether the `malloc` and the `realloc` for this row succeed.
unfoldable pub append_row : Bool → Map → Bytes → Checked Map
append_row memory map line =
    if memory
    then accepted (record map { cells = map.cells ++ line ∷ []; rows = map.rows + 1 })
    else rejected no_memory

unfoldable pub ghost_index_for_cell : ℕ → Option ℕ
ghost_index_for_cell cell = if leb b'A' cell && leb cell b'D' then some (cell - b'A') else none

abbrev pub is_some {ℓ} : {A : Type ℓ} → Option A → Bool
is_some none = false
is_some (some _) = true

unfoldable pub validate_map_cell : ℕ → ℕ → ℕ → Checked (Unit {0})
unfolding ghost_index_for_cell
validate_map_cell cell row col =
    if cell == b'X' || cell == b'O' || cell == b'P' || is_some (ghost_index_for_cell cell)
    then accepted tt
    else rejected (invalid_cell cell row col)

-- `pacman_count`, `ghost_counts` and the start fields of `mutable_map`.
pub record Entities : Type 0 where
  pub pacman_count : ℕ
  pub ghost_counts : ℕ → ℕ
  pub pacman_start : Position
  pub ghost_starts : ℕ → Position

register_ghost : Option ℕ → ℕ → ℕ → Entities → Entities
register_ghost none row col found = found
register_ghost (some i) row col found = record found {
  ghost_counts = update found.ghost_counts i (found.ghost_counts i + 1);
  ghost_starts = update found.ghost_starts i (record { row = to_int row; col = to_int col });
}

unfoldable pub register_entity : ℕ → ℕ → ℕ → Entities → Entities
unfolding register_ghost ghost_index_for_cell
register_entity cell row col found =
    if cell == b'P'
    then record found {
      pacman_count = found.pacman_count + 1;
      pacman_start = record { row = to_int row; col = to_int col };
    }
    else register_ghost (ghost_index_for_cell cell) row col found

-- The inner loop over the columns of one row, from column `col` on.
unfoldable pub scan_row : ℕ → ℕ → Bytes → Entities → Checked Entities
scan_row row col [] found = accepted found
scan_row row col (cell ∷ rest) found = validate_map_cell cell row col >>= λ _.
    scan_row row (col + 1) rest (register_entity cell row col found)

-- The outer loop over the rows, from row `row` on.
unfoldable pub scan_rows : ℕ → List Bytes → Entities → Checked Entities
scan_rows row [] found = accepted found
scan_rows row (line ∷ rest) found =
    scan_row row 0 line found >>= λ next. scan_rows (row + 1) rest next

-- `for (row = 0; row < PACMAN_GHOST_COUNT; ++row)`, from ghost `i` on with `left` to go.
unfoldable pub check_ghosts : ℕ → ℕ → Entities → Checked (Unit {0})
check_ghosts i ℕ.zero found = accepted tt
check_ghosts i (suc left) found =
    let rest = check_ghosts (i + 1) left found in
    if not (found.ghost_counts i == 1)
    then rejected (ghost_found i (found.ghost_counts i))
    else rest

unfoldable pub check_counts : Entities → Checked (Unit {0})
check_counts found =
    if not (found.pacman_count == 1)
    then rejected (pacman_found found.pacman_count)
    else check_ghosts 0 ghost_count found

unfoldable pub no_entities : Map → Entities
no_entities map = record {
  pacman_count = 0;
  ghost_counts = λ _. 0;
  pacman_start = map.pacman_start;
  ghost_starts = map.ghost_starts;
}

unfoldable pub validate_entities : Map → Checked Map
validate_entities map = scan_rows 0 map.cells (no_entities map) >>= λ found.
    check_counts found >>= λ _.
    accepted (record map { pacman_start = found.pacman_start; ghost_starts = found.ghost_starts })

-- The `while (fgets(…))` loop; `memory i` says whether there is memory for row i.
unfoldable pub read_rows : (ℕ → Bool) → ℕ → List Bytes → Map → Checked Map
read_rows memory line_number [] map = accepted map
read_rows memory line_number (buffer ∷ rest) map =
    let line = strip_line_ending (c_string buffer) in
    validate_row_width map (length line) (line_number + 1) >>= λ wide.
    append_row (memory wide.rows) wide line >>= λ longer.
    read_rows memory (line_number + 1) rest longer

-- What follows the loop: `ferror`, the test for an empty map, the entities.
unfoldable pub finish_load : Bool → Map → Checked Map
finish_load read_error map =
    if read_error
    then rejected read_failed
    else if map.rows == 0
    then rejected no_rows
    else validate_entities map

unfoldable pub load_opened : (ℕ → Bool) → Option File → Map → Checked Map
load_opened memory none map = rejected cannot_open
load_opened memory (some file) map =
    read_rows memory 0 (fgets_all file.contents) map >>= finish_load file.read_error

unfoldable pub load_path : (ℕ → Bool) → FileSystem → Option Bytes → Map → Checked Map
load_path memory files none map = rejected path_too_long
load_path memory files (some path) map = load_opened memory (files path) map

unfoldable pub map_load : (ℕ → Bool) → FileSystem → Bytes → Map → Checked Map
map_load memory files case_dir map =
    load_path memory files (build_path case_dir (codes "map.txt")) map
