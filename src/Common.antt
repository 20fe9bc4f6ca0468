-- ===== src/Common.antt =====
-- include/common.h: the constants and the position of a piece.
use pacman_posix.Prelude.{ℕ}
use pacman_posix.Prelude.Int.{ℤ, pos}

abbrev pub ghost_count : ℕ
ghost_count = 4

abbrev pub max_map_rows : ℕ
max_map_rows = 64

abbrev pub max_map_cols : ℕ
max_map_cols = 64

abbrev pub initial_lives : ℤ
initial_lives = pos 3

abbrev pub default_pacman_priority : ℤ
default_pacman_priority = pos 20

abbrev pub default_enemy_priority : ℤ
default_enemy_priority = pos 30

abbrev pub min_priority : ℤ
min_priority = pos 0

abbrev pub max_priority : ℤ
max_priority = pos 100

pub record Position : Type 0 where
  pub row : ℤ
  pub col : ℤ
