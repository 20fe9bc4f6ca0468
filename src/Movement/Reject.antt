-- ===== src/Movement/Reject.antt =====
-- `movement_load_file` of src/movement.c: the line that its message names.
use pacman_posix.Prelude.{
  ℕ, ◌+◌, ◌≡◌, refl, ap, List, [], ◌∷◌, ◌++◌, arith, length, All, true, false, Bool, Option, none,
  some, inl, inr, ◌⊎◌, ◌==◌, if◌then◌else◌,
}
use pacman_posix.Text.{Bytes, c_string, fgets_all}
use pacman_posix.Environment.{File, FileSystem, build_path}
use pacman_posix.Movement.{
  strip_line, is_valid_instruction, LoadError, empty_instruction, invalid_instruction, failed,
  load_lines, load_opened, load_path, movement_load_file,
}
use pacman_posix.Movement.Load.{GoodLine, nil_invalid}

-- The line that is blamed, numbered from 1: all before it are good, and it is not.
pub record Blames (lines : List Bytes) (from k : ℕ) (empty : Bool) : Type 0 where
  pub good : List Bytes
  pub bad : Bytes
  pub rest : List Bytes
  pub splits : lines ≡ good ++ bad ∷ rest
  pub before : All GoodLine good
  pub number : k ≡ from + length good + 1
  pub refused : is_valid_instruction (strip_line (c_string bad)) ≡ false
  pub is_empty : (length (strip_line (c_string bad)) == 0) ≡ empty

abbrev pub blame : Bool → ℕ → LoadError
blame empty k = if empty then empty_instruction k else invalid_instruction k

Blames-here :
    (buffer : Bytes) (rest : List Bytes) (l k : ℕ) (empty : Bool)
    → k ≡ l + 1
    → is_valid_instruction (strip_line (c_string buffer)) ≡ false
    → (length (strip_line (c_string buffer)) == 0) ≡ empty
    → Blames (buffer ∷ rest) l k empty
Blames-here buffer rest l k empty q v e = record {
  good = [];
  bad = buffer;
  rest = rest;
  splits = refl;
  before = tt;
  number = omega arith;
  refused = v;
  is_empty = e;
}

Blames-later :
    (buffer : Bytes) (rest : List Bytes) (l k : ℕ) (empty : Bool)
    → GoodLine buffer
    → Blames rest (l + 1) k empty
    → Blames (buffer ∷ rest) l k empty
Blames-later buffer rest l k empty g b = record {
  good = buffer ∷ b.good;
  bad = b.bad;
  rest = b.rest;
  splits = ap (◌∷◌ buffer) b.splits;
  before = (g, b.before);
  number = omega (arith, b.number);
  refused = b.refused;
  is_empty = b.is_empty;
}

empty_invalid : (line : Bytes) → (length line == 0) ≡ true → is_valid_instruction line ≡ false
empty_invalid [] h = nil_invalid
empty_invalid (c ∷ cs) h = absurd (ground arith)

-- One line of the loop: it fails here, or the line is good and the rest fails.
load_lines_step :
    (r empty : Bool) (l n k : ℕ) (buffer : Bytes) (rest : List Bytes)
    → load_lines r l n (buffer ∷ rest) ≡ failed (blame empty k)
    → ((k ≡ l + 1)
        × (is_valid_instruction (strip_line (c_string buffer)) ≡ false)
        × ((length (strip_line (c_string buffer)) == 0) ≡ empty))
      ⊎ (GoodLine buffer × (load_lines r (l + 1) (n + 1) rest ≡ failed (blame empty k)))
unfolding load_lines
load_lines_step r true l n k buffer rest h =
    ground (arith, empty_invalid (strip_line (c_string buffer)))
load_lines_step r false l n k buffer rest h =
    ground (arith, empty_invalid (strip_line (c_string buffer)))

load_lines-Blames :
    (read_error empty : Bool) (l n k : ℕ) (lines : List Bytes)
    → load_lines read_error l n lines ≡ failed (blame empty k)
    → Blames lines l k empty
unfolding load_lines
load_lines-Blames true true l n k [] h = ground arith
load_lines-Blames true false l n k [] h = ground arith
load_lines-Blames false true l n k [] h = ground arith
load_lines-Blames false false l n k [] h = ground arith
load_lines-Blames r empty l n k (buffer ∷ rest) h =
    elim (load_lines_step r empty l n k buffer rest h) [
      | inl (q, v, e) ↦ Blames-here buffer rest l k empty q v e
      | inr (g, later) ↦
          Blames-later buffer rest l k empty g
            (load_lines-Blames r empty (l + 1) (n + 1) k rest later)
    ]

-- The file that is behind a message which names a line.
pub record Rejects (files : FileSystem) (case_dir file_name : Bytes) (k : ℕ) (empty : Bool)
    : Type 0 where
  pub path : Bytes
  pub file : File
  pub path_fits : build_path case_dir file_name ≡ some path
  pub opens : files path ≡ some file
  pub blames : Blames (fgets_all file.contents) 0 k empty

load_opened-Rejects :
    (files : FileSystem) (case_dir file_name : Bytes) (k : ℕ) (empty : Bool) (p : Bytes)
    → build_path case_dir file_name ≡ some p
    → (file : Option File) → files p ≡ file
    → load_opened file ≡ failed (blame empty k)
    → Rejects files case_dir file_name k empty
unfolding load_opened
load_opened-Rejects files case_dir file_name k true p e none o h = cc
load_opened-Rejects files case_dir file_name k false p e none o h = cc
load_opened-Rejects files case_dir file_name k empty p e (some file) o h = record {
  path = p;
  file = file;
  path_fits = e;
  opens = o;
  blames = load_lines-Blames file.read_error empty 0 0 k (fgets_all file.contents) h;
}

load_path-Rejects :
    (files : FileSystem) (case_dir file_name : Bytes) (k : ℕ) (empty : Bool) (path : Option Bytes)
    → build_path case_dir file_name ≡ path
    → load_path files path ≡ failed (blame empty k)
    → Rejects files case_dir file_name k empty
unfolding load_path
load_path-Rejects files case_dir file_name k true none e h = cc
load_path-Rejects files case_dir file_name k false none e h = cc
load_path-Rejects files case_dir file_name k empty (some p) e h =
    load_opened-Rejects files case_dir file_name k empty p e (files p) refl h

-- When `movement_load_file` reports line k as empty (`empty` is true) or as invalid (false), all
-- the lines before the k-th hold valid instructions, the k-th does not, and it is empty after
-- trimming exactly in the first case.
pub movement_load_file-Rejects :
    (files : FileSystem) (case_dir file_name : Bytes) (k : ℕ) (empty : Bool)
    → movement_load_file files case_dir file_name ≡ failed (blame empty k)
    → Rejects files case_dir file_name k empty
unfolding movement_load_file
movement_load_file-Rejects files case_dir file_name k empty =
    load_path-Rejects files case_dir file_name k empty (build_path case_dir file_name) refl
