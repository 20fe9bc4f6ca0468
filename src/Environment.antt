-- ===== src/Environment.antt =====
-- What the operating system gives to the parts of src/*.c that read files: the files of the case
-- directory, and `build_path` (src/map.c, src/movement.c, src/pacman.c, src/enemy.c), which
-- formats their names into a fixed buffer.
use pacman_posix.Prelude.{ℕ, Bool, Option, none, some, ◌++◌, ◌∷◌, leb, length, if◌then◌else◌}
use pacman_posix.Text.{Bytes}

-- A file as `fopen`, `fgets` and `ferror` show it: the bytes that can be read, and whether the
-- stream then stops on an error.
pub record File : Type 0 where
  pub contents : Bytes
  pub read_error : Bool

-- `none` where `fopen(path, "r")` fails.
abbrev pub FileSystem : Type 0
FileSystem = Bytes → Option File

-- `char path[4096]`
abbrev pub path_size : ℕ
path_size = 4096

-- `snprintf(buffer, 4096, "%s/%s", case_dir, file_name)`: `none` if the text and its NUL do not fit.
unfoldable pub build_path : Bytes → Bytes → Option Bytes
build_path case_dir file_name =
    let path = case_dir ++ (b'/' ∷ file_name) in
    if leb path_size (length path) then none else some path
