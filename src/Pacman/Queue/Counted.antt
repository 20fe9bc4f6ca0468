-- ===== src/Pacman/Queue/Counted.antt =====
-- P1 gets the instructions that P0 has counted.
use pacman_posix.Prelude.{
  ℕ, suc, ◌≤◌, ◌≡◌, ◌⊎◌, inl, inr, refl, sym, ap, ◌∙◌, subst, true, false, List, [], ◌∷◌, some,
  length, All, ◌==◌, arith,
}
use pacman_posix.Text.{Bytes, c_string, has_prefix, fgets_all}
use pacman_posix.Environment.{File, FileSystem}
use pacman_posix.Movement.{
  strip_line, is_valid_instruction, priority_prefix, movement_load_file, loaded,
}
use pacman_posix.Movement.Load.{GoodLine, nil_invalid, movement_load_file-Accepts}
use pacman_posix.Pacman.{PacmanInstruction, parse_instruction}
use pacman_posix.Pacman.Parse.{number_of, Parsed, is_valid_instruction-Parsed}
use pacman_posix.Pacman.Queue.{line_instruction}
use pacman_posix.Pacman.Queue.Reader.{instructions_of}

-- The line does not ask for a priority, or for one up to 100.
abbrev pub AsksInRange : Bytes → Type 0
AsksInRange buffer =
    (has_prefix priority_prefix (strip_line (c_string buffer)) ≡ false)
    ⊎ (number_of (strip_line (c_string buffer)) ≤ 100)

good_not_empty : (line : Bytes) → is_valid_instruction line ≡ true → (length line == 0) ≡ false
good_not_empty [] g = cc nil_invalid
good_not_empty (c ∷ cs) g = ground arith

parses :
    (line : Bytes)
    → (has_prefix priority_prefix line ≡ false) ⊎ (number_of line ≤ 100)
    → Parsed line
    → (i : PacmanInstruction) × (parse_instruction line ≡ some i)
parses line small (inl p) = p
parses line (inl other) (inr (prefix, big, e)) = cc
parses line (inr small) (inr (prefix, big, e)) = absurd (omega arith)

line_has :
    (buffer : Bytes)
    → GoodLine buffer
    → AsksInRange buffer
    → (i : PacmanInstruction) × (line_instruction buffer ≡ some i)
unfolding line_instruction
line_has buffer g small =
    let (i, e) =
      parses (strip_line (c_string buffer)) small
        (is_valid_instruction-Parsed (strip_line (c_string buffer)) g) in
    (i, rw (good_not_empty (strip_line (c_string buffer)) g) e)

length-instructions_of :
    (lines : List Bytes)
    → All GoodLine lines
    → All AsksInRange lines
    → length (instructions_of lines) ≡ length lines
unfolding instructions_of
length-instructions_of [] g s = refl
length-instructions_of (buffer ∷ rest) (g, gs) (s, ss) =
    let (i, e) = line_has buffer g s in rw e (ap suc (length-instructions_of rest gs ss))

-- If P0's `movement_load_file` accepts a file with `count` instructions and no line asks for a
-- priority above 100, then P1 finds exactly `count` instructions in the lines of that file.
pub movement_load_file-instructions_of :
    (files : FileSystem) (case_dir file_name path : Bytes) (file : File) (count : ℕ)
    → movement_load_file files case_dir file_name ≡ loaded count
    → pacman_posix.Environment.build_path case_dir file_name ≡ some path
    → files path ≡ some file
    → All AsksInRange (fgets_all file.contents)
    → length (instructions_of (fgets_all file.contents)) ≡ count
movement_load_file-instructions_of files case_dir file_name path file count h e o s =
    let a = (movement_load_file-Accepts files case_dir file_name count).0 h in
    let same_path : a.path ≡ path = cc (a.path_fits) in
    let same_file : a.file ≡ file = cc (a.opens, same_path) in
    subst
      (λ (f : File).
        All AsksInRange (fgets_all f.contents)
        → length (instructions_of (fgets_all f.contents)) ≡ count)
      same_file
      (λ small. length-instructions_of (fgets_all a.file.contents) a.good small ∙ sym a.counts) s
