-- ===== src/Map/Load.antt =====
-- `map_load` of src/map.c: exactly the good maps are loaded, and the start positions are where the
-- letters are.
use pacman_posix.Prelude.{
  ℕ, ◌<◌, ◌≡◌, inl, refl, sym, ap, ◌∙◌, Bool, true, false, Option, none, some, length, arith,
}
use pacman_posix.Text.{Bytes, codes, fgets_all}
use pacman_posix.Environment.{File, FileSystem, build_path}
use pacman_posix.Map.{
  Map, empty_map, accepted, validate_entities, read_rows, finish_load, load_opened, load_path,
  map_load,
}
use pacman_posix.Map.Cells.{Piece, letter, IsPiece, Holds, IsRectangle, IsBoard}
use pacman_posix.Map.Scan.{bind-accepted}
use pacman_posix.Map.Rows.{rows_of, Grown, read_rows-ReadsRows, read_rows-ok}
use pacman_posix.Map.Validate.{place_of, validate_entities-Validated, validate_entities-ok}

-- What `map_load` has checked when it returns PACMAN_OK with `map`.
pub record Loads (memory : ℕ → Bool) (files : FileSystem) (case_dir : Bytes) (map : Map)
    : Type 0 where
  pub path : Bytes
  pub file : File
  pub path_fits : build_path case_dir (codes "map.txt") ≡ some path
  pub opens : files path ≡ some file
  pub reads : file.read_error ≡ false
  pub cells : map.cells ≡ rows_of (fgets_all file.contents)
  pub rows_count : map.rows ≡ length map.cells
  pub rectangle : IsRectangle map.cols map.cells
  pub board : IsBoard map.cells
  pub places : (k : Piece) → IsPiece k → Holds map.cells (letter k) (place_of map k)
  pub memory_ok : (i : ℕ) → i < map.rows → memory i ≡ true

finish_load-parts :
    (read_error : Bool) (map last : Map)
    → finish_load read_error map ≡ accepted last
    → (read_error ≡ false) × (0 < map.rows) × (validate_entities map ≡ accepted last)
unfolding finish_load
finish_load-parts read_error map last h = ground arith

finish_load-ok :
    (read_error : Bool) (map last : Map)
    → read_error ≡ false
    → 0 < map.rows
    → validate_entities map ≡ accepted last
    → finish_load read_error map ≡ accepted last
unfolding finish_load
finish_load-ok read_error map last r p v = ground arith

empty_map-Grown : Grown empty_map
empty_map-Grown = record { rows_count = refl; even = tt; some_cols = λ h. absurd (omega arith) }

module _ (memory : ℕ → Bool) (files : FileSystem) (case_dir : Bytes) where
  load_opened-Loads :
      (p : Bytes) (map : Map)
      → build_path case_dir (codes "map.txt") ≡ some p
      → (file : Option File) → files p ≡ file
      → load_opened memory file empty_map ≡ accepted map
      → Loads memory files case_dir map
  unfolding load_opened
  load_opened-Loads p map e none o h = cc
  load_opened-Loads p map e (some file) o h =
      let lines = fgets_all file.contents in
      let (read, r, more) = bind-accepted (read_rows memory 0 lines empty_map) _ h in
      let (reads, some_rows, v) = finish_load-parts file.read_error read map more in
      let all = read_rows-ReadsRows memory 0 lines empty_map read empty_map-Grown r in
      let grown = all.grown in
      let valid = validate_entities-Validated read map v in
      let same = sym valid.same_cells in
      record {
        path = p;
        file = file;
        path_fits = e;
        opens = o;
        reads = reads;
        cells = valid.same_cells ∙ all.cells;
        rows_count = valid.same_rows ∙ grown.rows_count ∙ ap length same;
        rectangle = record {
          some_rows = rw valid.same_cells (omega (arith, grown.rows_count, some_rows));
          some_cols = rw valid.same_cols (grown.some_cols some_rows);
          even = rw (valid.same_cells, valid.same_cols) grown.even;
        };
        board = rw valid.same_cells valid.board;
        places = λ k q. rw valid.same_cells (valid.places k q);
        memory_ok = λ i q. all.memory_ok i (omega arith) (omega (arith, valid.same_rows, q));
      }

  load_path-Loads :
      (map : Map) (path : Option Bytes)
      → build_path case_dir (codes "map.txt") ≡ path
      → load_path memory files path empty_map ≡ accepted map
      → Loads memory files case_dir map
  unfolding load_path
  load_path-Loads map none e h = cc
  load_path-Loads map (some p) e h = load_opened-Loads p map e (files p) refl h

-- If `map_load` succeeds on an empty map, then map.txt was read to its end and the rows are its
-- lines without their line ends; they form a rectangle of the recorded size with at least one cell;
-- each cell is a wall, a path, Pac-Man or a ghost; Pac-Man and each ghost stand there exactly once;
-- and each recorded start position is the cell with that piece's letter.
pub map_load-Loads :
    (memory : ℕ → Bool) (files : FileSystem) (case_dir : Bytes) (map : Map)
    → map_load memory files case_dir empty_map ≡ accepted map
    → Loads memory files case_dir map
unfolding map_load
map_load-Loads memory files case_dir map =
    load_path-Loads memory files case_dir map (build_path case_dir (codes "map.txt")) refl

map_load_run :
    (memory : ℕ → Bool) (files : FileSystem) (case_dir path : Bytes) (file : File) (read map : Map)
    → build_path case_dir (codes "map.txt") ≡ some path
    → files path ≡ some file
    → read_rows memory 0 (fgets_all file.contents) empty_map ≡ accepted read
    → finish_load file.read_error read ≡ accepted map
    → map_load memory files case_dir empty_map ≡ accepted map
unfolding map_load load_path load_opened
map_load_run memory files case_dir path file read map e o r f = rw (e, o, r) f

-- `map_load` on an empty map succeeds for every file that it should accept: the path fits, the file
-- opens and reads to its end, there is memory for each line, the lines without their line ends
-- form a rectangle with at least one cell, and they are a board with each piece exactly once.
pub map_load_accepts :
    (memory : ℕ → Bool) (files : FileSystem) (case_dir path : Bytes) (file : File) (cols : ℕ)
    → build_path case_dir (codes "map.txt") ≡ some path
    → files path ≡ some file
    → file.read_error ≡ false
    → ((i : ℕ) → i < length (fgets_all file.contents) → memory i ≡ true)
    → IsRectangle cols (rows_of (fgets_all file.contents))
    → IsBoard (rows_of (fgets_all file.contents))
    → (map : Map) × (map_load memory files case_dir empty_map ≡ accepted map)
map_load_accepts memory files case_dir path file cols e o r m q b =
    let lines = fgets_all file.contents in
    let (read, done) =
      read_rows-ok memory 0 cols lines empty_map (λ i h. m i (omega arith)) q.some_cols q.even
        (inl refl) in
    let all = read_rows-ReadsRows memory 0 lines empty_map read empty_map-Grown done in
    let grown = all.grown in
    let some_rows : 0 < read.rows =
      omega (arith, grown.rows_count, ap length all.cells, q.some_rows) in
    let (map, valid) = validate_entities-ok read (rw all.cells b) in
    let finished = finish_load-ok file.read_error read map r some_rows valid in
    (map, map_load_run memory files case_dir path file read map e o done finished)
