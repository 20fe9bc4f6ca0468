-- ===== src/Movement/Load.antt =====
-- When src/movement.c accepts a movement file, and which line it blames when it does not.
use pacman_posix.Prelude.{
  ℕ, ◌+◌, ◌≡◌, refl, ap, ◌∙◌, List, [], ◌∷◌, arith, length, All, true, false, Bool, ◌↔◌, Option,
  none, some, ◌==◌, if◌then◌else◌,
}
use pacman_posix.Text.{Bytes, c_string, fgets_all, streq, has_prefix}
use pacman_posix.Environment.{File, FileSystem, build_path}
use pacman_posix.Movement.{
  strip_line, is_valid_instruction, read_failed, loaded, failed, load_lines, load_opened, load_path,
  movement_load_file,
}

-- What one call of `fgets` read holds a valid instruction.
abbrev pub GoodLine : Bytes → Type 0
GoodLine buffer = is_valid_instruction (strip_line (c_string buffer)) ≡ true

pub nil_invalid : is_valid_instruction [] ≡ false
unfolding is_valid_instruction streq has_prefix
nil_invalid = refl

-- The empty text is refused before it is looked at, and it would be refused anyway.
good_nonempty :
    (buffer : Bytes) → GoodLine buffer → (length (strip_line (c_string buffer)) == 0) ≡ false
good_nonempty buffer h = go (strip_line (c_string buffer)) h
  where
    go : (line : Bytes) → is_valid_instruction line ≡ true → (length line == 0) ≡ false
    go [] e = cc nil_invalid
    go (c ∷ cs) e = ground arith

load_lines-good :
    (read_error : Bool) (l n : ℕ) (lines : List Bytes)
    → All GoodLine lines
    → load_lines read_error l n lines
      ≡ (if read_error then failed read_failed else loaded (n + length lines))
unfolding load_lines
load_lines-good false l n [] h = ap loaded (omega arith)
load_lines-good true l n [] h = refl
load_lines-good b l n (buffer ∷ rest) h =
    rw (good_nonempty buffer h.0, h.0)
      (load_lines-good b (l + 1) (n + 1) rest h.1
        ∙ ap (λ k. if b then failed read_failed else loaded k) (omega arith))

load_lines-loaded :
    (read_error : Bool) (l n m : ℕ) (lines : List Bytes)
    → load_lines read_error l n lines ≡ loaded m
    → All GoodLine lines × (read_error ≡ false) × (m ≡ n + length lines)
unfolding load_lines
load_lines-loaded b l n m [] h = ground arith
load_lines-loaded b l n m (buffer ∷ rest) h =
    ground (arith, load_lines-loaded b (l + 1) (n + 1) m rest)

-- All that `movement_load_file` asks of a file that it accepts, with the count that it reports.
pub record Accepts (files : FileSystem) (case_dir file_name : Bytes) (count : ℕ) : Type 0 where
  pub path : Bytes
  pub file : File
  pub path_fits : build_path case_dir file_name ≡ some path
  pub opens : files path ≡ some file
  pub reads : file.read_error ≡ false
  pub good : All GoodLine (fgets_all file.contents)
  pub counts : count ≡ length (fgets_all file.contents)

load_opened-Accepts :
    (files : FileSystem) (case_dir file_name : Bytes) (count : ℕ) (p : Bytes)
    → build_path case_dir file_name ≡ some p
    → (file : Option File) → files p ≡ file
    → load_opened file ≡ loaded count
    → Accepts files case_dir file_name count
unfolding load_opened
load_opened-Accepts files case_dir file_name count p e none o h = cc
load_opened-Accepts files case_dir file_name count p e (some file) o h =
    let r = load_lines-loaded file.read_error 0 0 count (fgets_all file.contents) h in
    record {
      path = p;
      file = file;
      path_fits = e;
      opens = o;
      reads = r.1;
      good = r.0;
      counts = r.2 ∙ omega arith;
    }

load_path-Accepts :
    (files : FileSystem) (case_dir file_name : Bytes) (count : ℕ) (path : Option Bytes)
    → build_path case_dir file_name ≡ path
    → load_path files path ≡ loaded count
    → Accepts files case_dir file_name count
unfolding load_path
load_path-Accepts files case_dir file_name count none e h = cc
load_path-Accepts files case_dir file_name count (some p) e h =
    load_opened-Accepts files case_dir file_name count p e (files p) refl h

Accepts-load :
    (files : FileSystem) (case_dir file_name : Bytes) (count : ℕ)
    → Accepts files case_dir file_name count
    → movement_load_file files case_dir file_name ≡ loaded count
unfolding movement_load_file
Accepts-load files case_dir file_name count a =
    rw (a.path_fits, load_path)
      (rw (a.opens, load_opened)
        (load_lines-good a.file.read_error 0 0 (fgets_all a.file.contents) a.good
          ∙ rw (a.reads, a.counts) (ap loaded (omega arith))))

-- `movement_load_file` returns PACMAN_OK with a count exactly when the path fits its buffer, the
-- file opens and reads to its end, every line of it holds a valid instruction once trimmed, and the
-- count is the number of those lines.
pub movement_load_file-Accepts :
    (files : FileSystem) (case_dir file_name : Bytes) (count : ℕ)
    → (movement_load_file files case_dir file_name ≡ loaded count)
      ↔ Accepts files case_dir file_name count
unfolding movement_load_file
movement_load_file-Accepts files case_dir file_name count = (
  load_path-Accepts files case_dir file_name count (build_path case_dir file_name) refl,
  Accepts-load files case_dir file_name count,
)
