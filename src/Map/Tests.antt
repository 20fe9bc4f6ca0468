-- ===== src/Map/Tests.antt =====
-- `map_load` on a small board with CRLF line ends, and on bad ones.
use pacman_posix.Prelude.{zero, suc, ◌≡◌, refl, List, [], some, arith, none}
use pacman_posix.Text.{Bytes, codes, fgets_all}
use pacman_posix.Environment.{build_path}
use pacman_posix.Map.{
  Map, empty_map, accepted, rejected, map_load, not_rectangular, ghost_found, invalid_cell, no_rows,
}
use pacman_posix.Map.Cells.{Piece, letter, IsPiece, count_grid, IsRectangle, IsBoard}
use pacman_posix.Map.Rows.{rows_of}
use pacman_posix.Map.Load.{Loads, map_load-Loads, map_load_accepts}
use pacman_posix.Map.Samples.{small_file, files, memory, small_map, load_text, small_loads}

bad_maps :
    (load_text (codes "XXX\nXX\n") ≡ rejected (not_rectangular 2 3 2))
    × (load_text (codes "XPABCCX\n") ≡ rejected (ghost_found 2 2))
    × (load_text (codes "XPA\nB?D\n") ≡ rejected (invalid_cell b'?' 1 1))
    × (load_text [] ≡ rejected no_rows)
unfolding load_text
bad_maps = (refl, refl, refl, refl)

map_load-Loads_example : Loads memory (files small_file) (codes "c") small_map
map_load-Loads_example = map_load-Loads memory (files small_file) (codes "c") small_map small_loads

abbrev small_rows : List Bytes
small_rows = rows_of (fgets_all small_file.contents)

small_rows_lem : small_rows ≡ small_map.cells
unfolding load_text
small_rows_lem = refl

small_once : (k : Piece) → IsPiece k → count_grid (letter k) small_map.cells ≡ 1
small_once none h = refl
small_once (some zero) h = refl
small_once (some (suc zero)) h = refl
small_once (some (suc (suc zero))) h = refl
small_once (some (suc (suc (suc zero)))) h = refl
small_once (some (suc (suc (suc (suc i))))) h = absurd (omega arith)

small-IsRectangle : IsRectangle 7 small_rows
small-IsRectangle =
    rw small_rows_lem
      (record { some_rows = omega arith; some_cols = omega arith; even = omega arith })

small-IsBoard : IsBoard small_rows
small-IsBoard = rw small_rows_lem (record { known = omega arith; once = small_once })

map_load_accepts_example :
    (map : Map) × (map_load memory (files small_file) (codes "c") empty_map ≡ accepted map)
unfolding build_path
map_load_accepts_example =
    map_load_accepts memory (files small_file) (codes "c") (codes "c/map.txt") small_file 7 refl
      refl refl (λ i h. refl) small-IsRectangle small-IsBoard
