-- ===== src/Map/Samples.antt =====
-- A small board with CRLF line ends, as a file and as it is loaded.
use pacman_posix.Prelude.{ℕ, ◌≡◌, refl, true, [], ◌∷◌, some, update, Bool}
use pacman_posix.Prelude.Int.{pos}
use pacman_posix.Text.{Bytes, codes, fgets_all, strip_end, c_string}
use pacman_posix.Environment.{File, FileSystem, build_path}
use pacman_posix.Common.{Position}
use pacman_posix.Map.{
  Map, empty_map, Checked, accepted, map_load, strip_line_ending, is_newline, validate_row_width,
  append_row, validate_map_cell, register_entity, scan_row, scan_rows, check_ghosts, check_counts,
  no_entities, validate_entities, read_rows, finish_load, load_opened, load_path,
}

abbrev pub small_file : File
small_file = record { contents = codes "XXXXXXX\r\nXPABCDX\r\nXXXXXXX"; read_error = Bool.false }

abbrev pub files : File → FileSystem
files file path = some file

abbrev pub memory : ℕ → Bool
memory i = true

abbrev pub at : ℕ → ℕ → Position
at r c = record { row = pos r; col = pos c }

abbrev pub small_map : Map
small_map = record {
  cells = codes "XXXXXXX" ∷ codes "XPABCDX" ∷ codes "XXXXXXX" ∷ [];
  rows = 3;
  cols = 7;
  pacman_start = at 1 1;
  ghost_starts =
      update (update (update (update (λ _. at 0 0) 0 (at 1 2)) 1 (at 1 3)) 2 (at 1 4)) 3 (at 1 5);
}

-- `map_load` on a text, with all that it calls open to evaluation.
unfoldable pub load_text : Bytes → Checked Map
unfolding map_load load_path load_opened build_path fgets_all c_string strip_end strip_line_ending
    is_newline validate_row_width append_row validate_map_cell register_entity scan_row scan_rows
    check_ghosts check_counts no_entities validate_entities read_rows finish_load
load_text text =
    map_load memory (files (record { contents = text; read_error = Bool.false })) (codes "c")
      empty_map

pub small_loads : map_load memory (files small_file) (codes "c") empty_map ≡ accepted small_map
unfolding load_text
small_loads = refl
