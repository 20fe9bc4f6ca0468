-- ===== src/Movement.antt =====
-- src/movement.c: P0 reads each movement file before the game starts, checks every line and
-- counts the instructions.
pub mod Trim
pub mod Load
pub mod Reject
mod Tests
use pacman_posix.Prelude.{
  ℕ, suc, ◌+◌, ◌-◌, Bool, true, false, ◌&&◌, ◌||◌, not, List, [], ◌∷◌, Option, none, some, take,
  drop, length, ◌==◌, if◌then◌else◌,
}
use pacman_posix.Text.{
  Bytes, codes, c_string, fgets_all, streq, has_prefix, strip_end, leading, is_digit,
}
use pacman_posix.Environment.{File, FileSystem, build_path}

-- `line[start] == ' ' || line[start] == '\t'`
unfoldable pub is_blank : ℕ → Bool
is_blank c = c == b' ' || c == b'\t'

-- The characters that are removed at the end of a line.
unfoldable pub is_line_end : ℕ → Bool
unfolding is_blank
is_line_end c = c == b'\n' || c == b'\r' || is_blank c

-- `strip_line`: the text that is left in the buffer; its length is what the function returns.
unfoldable pub strip_line : Bytes → Bytes
strip_line line =
    let kept = take (strip_end is_line_end line (length line)) line in
    drop (leading is_blank kept) kept

unfoldable pub all_digits : Bytes → Bool
unfolding is_digit
all_digits [] = true
all_digits (c ∷ cs) = if is_digit c then all_digits cs else false

unfoldable pub is_digits : Bytes → Bool
unfolding all_digits
is_digits [] = false
is_digits (c ∷ cs) = all_digits (c ∷ cs)

abbrev pub priority_prefix : Bytes
priority_prefix = codes "SET_PRIORITY "

unfoldable pub is_valid_instruction : Bytes → Bool
is_valid_instruction line =
    if streq line (codes "UP")
      || streq line (codes "DOWN")
      || streq line (codes "LEFT")
      || streq line (codes "RIGHT")
    then true
    else if has_prefix priority_prefix line
    then is_digits (drop (length priority_prefix) line)
    else false

-- Why `movement_load_file` returns PACMAN_ERROR; the line is the one that its message names.
pub data LoadError : Type 0 where
  path_too_long cannot_open read_failed : LoadError
  empty_instruction : (line_number : ℕ) → LoadError
  invalid_instruction : (line_number : ℕ) → LoadError

pub data Loaded : Type 0 where
  loaded : (count : ℕ) → Loaded
  failed : LoadError → Loaded

-- The `while (fgets(…))` loop with `line_number` and `moves->count`, and the test of `ferror`.
unfoldable pub load_lines : Bool → ℕ → ℕ → List Bytes → Loaded
load_lines read_error line_number count [] = if read_error then failed read_failed else loaded count
load_lines read_error line_number count (buffer ∷ rest) =
    let line = strip_line (c_string buffer) in
    let next = load_lines read_error (line_number + 1) (count + 1) rest in
    if length line == 0
    then failed (empty_instruction (line_number + 1))
    else if not (is_valid_instruction line)
    then failed (invalid_instruction (line_number + 1))
    else next

unfoldable pub load_opened : Option File → Loaded
load_opened none = failed cannot_open
load_opened (some file) = load_lines file.read_error 0 0 (fgets_all file.contents)

unfoldable pub load_path : FileSystem → Option Bytes → Loaded
load_path files none = failed path_too_long
load_path files (some path) = load_opened (files path)

unfoldable pub movement_load_file : FileSystem → Bytes → Bytes → Loaded
unfolding load_path load_opened
movement_load_file files case_dir file_name = load_path files (build_path case_dir file_name)
