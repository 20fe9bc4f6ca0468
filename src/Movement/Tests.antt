-- ===== src/Movement/Tests.antt =====
-- Movement files, good and bad.
use pacman_posix.Prelude.{◌≡◌, refl, false, [], some}
use pacman_posix.Text.{
  Bytes, codes, c_string, fgets_all, streq, has_prefix, strip_end, leading, is_digit,
}
use pacman_posix.Environment.{FileSystem, build_path}
use pacman_posix.Movement.{
  strip_line, is_valid_instruction, is_digits, all_digits, is_blank, is_line_end, Loaded, loaded,
  failed, empty_instruction, invalid_instruction, load_lines, load_opened, load_path,
  movement_load_file,
}
use pacman_posix.Movement.Trim.{Trimmed, strip_line-Trimmed}
use pacman_posix.Movement.Load.{Accepts, movement_load_file-Accepts}
use pacman_posix.Movement.Reject.{Rejects, movement_load_file-Rejects}

abbrev holding : Bytes → FileSystem
holding text path = some (record { contents = text; read_error = false })

-- `movement_load_file` on a text, with all that it calls open to evaluation.
load_text : Bytes → Loaded
unfolding movement_load_file load_path load_opened load_lines build_path fgets_all c_string
    strip_line strip_end leading is_blank is_line_end is_valid_instruction streq has_prefix
    is_digits all_digits is_digit
load_text text = movement_load_file (holding text) (codes "c") (codes "m")

good_text :
    movement_load_file (holding (codes " UP\r\nSET_PRIORITY 7\n")) (codes "c") (codes "m")
    ≡ loaded 2
unfolding load_text
good_text = refl

bad_texts :
    (load_text (codes "UP\n \nLEFT") ≡ failed (empty_instruction 2))
    × (load_text (codes "SET_PRIORITY") ≡ failed (invalid_instruction 1))
    × (load_text (codes "SET_PRIORITY 999") ≡ loaded 1)
    × (load_text [] ≡ loaded 0)
unfolding load_text
bad_texts = (refl, refl, refl, refl)

bad_text :
    movement_load_file (holding (codes "UP\nUPP\n")) (codes "c") (codes "m")
    ≡ failed (invalid_instruction 2)
unfolding load_text
bad_text = refl

strip_line-Trimmed_example : Trimmed (codes " UP\t\n") (strip_line (codes " UP\t\n"))
strip_line-Trimmed_example = strip_line-Trimmed (codes " UP\t\n")

movement_load_file-Accepts_example :
    Accepts (holding (codes " UP\r\nSET_PRIORITY 7\n")) (codes "c") (codes "m") 2
movement_load_file-Accepts_example =
    (movement_load_file-Accepts (holding (codes " UP\r\nSET_PRIORITY 7\n")) (codes "c") (codes "m")
        2).0
      good_text

movement_load_file-Rejects_example :
    Rejects (holding (codes "UP\nUPP\n")) (codes "c") (codes "m") 2 false
movement_load_file-Rejects_example =
    movement_load_file-Rejects (holding (codes "UP\nUPP\n")) (codes "c") (codes "m") 2 false
      bad_text
