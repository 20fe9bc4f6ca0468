-- ===== src/Enemy/Instructions.antt =====
-- src/enemy.c: the list of instructions of a ghost, read from its file when its thread starts.
pub mod Loaded
mod Tests
use pacman_posix.Prelude.{
  ℕ, zero, suc, ◌+◌, Bool, true, false, List, [], ◌∷◌, Option, none, some, length, ◌==◌,
  if◌then◌else◌,
}
use pacman_posix.Text.{Bytes, c_string, fgets_all}
use pacman_posix.Environment.{File, FileSystem, build_path}
use pacman_posix.Movement.{strip_line}
use pacman_posix.Chain.{
  Store, Chain, write_node, link_node, Taken, nothing, taken, dangling, take_first,
}
use pacman_posix.Enemy.{EnemyInstruction, parse_instruction}

-- What a function on the list returns: PACMAN_OK, PACMAN_ERROR, or it follows a dangling pointer.
pub data Outcome (A : Type 0) : Type 0 where
  done : A → Chain EnemyInstruction → Outcome A
  failed : Chain EnemyInstruction → Outcome A
  faulted : Outcome A

abbrev pub linked_or_faulted : Option (Chain EnemyInstruction) → Outcome (Unit {0})
linked_or_faulted none = faulted
linked_or_faulted (some c) = done tt c

-- `node` is what `malloc` returned.
unfoldable pub append_instruction :
    (node : Option ℕ) → EnemyInstruction → Chain EnemyInstruction → Outcome (Unit {0})
append_instruction none i c = failed c
append_instruction (some p) i c = linked_or_faulted (link_node p (write_node p i c))

abbrev pub popped :
    Taken EnemyInstruction → Chain EnemyInstruction → Outcome (Option EnemyInstruction)
popped nothing c = done none c
popped (taken i d) c = done (some i) d
popped dangling c = faulted

unfoldable pub pop_instruction : Chain EnemyInstruction → Outcome (Option EnemyInstruction)
pop_instruction c = popped (take_first c) c

-- The instruction in one line, if there is one.
unfoldable pub line_instruction : Bytes → Option EnemyInstruction
line_instruction buffer =
    let line = strip_line (c_string buffer) in
    if length line == 0 then none else parse_instruction line

abbrev pub and_then :
    Outcome (Unit {0}) → (Chain EnemyInstruction → Outcome (Unit {0})) → Outcome (Unit {0})
and_then (done u c) rest = rest c
and_then (failed c) rest = failed c
and_then faulted rest = faulted

abbrev pub append_or_skip :
    Option EnemyInstruction
    → (Store EnemyInstruction → Option ℕ)
    → (Chain EnemyInstruction → Outcome (Unit {0}))
    → Chain EnemyInstruction
    → Outcome (Unit {0})
append_or_skip none malloc rest c = rest c
append_or_skip (some i) malloc rest c = and_then (append_instruction (malloc c.store) i c) rest

-- The loop of `load_ghost_instructions` and the test of `ferror`; `malloc k` is what `malloc` does for
-- the k-th line.
unfoldable pub load_lines :
    (ℕ → Store EnemyInstruction → Option ℕ)
    → Bool
    → ℕ
    → List Bytes
    → Chain EnemyInstruction
    → Outcome (Unit {0})
load_lines malloc read_error k [] c = if read_error then failed c else done tt c
load_lines malloc read_error k (buffer ∷ rest) c =
    let next = load_lines malloc read_error (k + 1) rest in
    append_or_skip (line_instruction buffer) (malloc k) next c

abbrev pub load_file :
    (ℕ → Store EnemyInstruction → Option ℕ)
    → Option File
    → Chain EnemyInstruction
    → Outcome (Unit {0})
load_file malloc none c = failed c
load_file malloc (some file) c = load_lines malloc file.read_error 0 (fgets_all file.contents) c

abbrev pub load_at :
    (ℕ → Store EnemyInstruction → Option ℕ)
    → FileSystem
    → Option Bytes
    → Chain EnemyInstruction
    → Outcome (Unit {0})
load_at malloc files none c = failed c
load_at malloc files (some path) c = load_file malloc (files path) c

unfoldable pub load_ghost_instructions :
    (ℕ → Store EnemyInstruction → Option ℕ)
    → FileSystem
    → Bytes
    → Bytes
    → Chain EnemyInstruction
    → Outcome (Unit {0})
load_ghost_instructions malloc files case_dir file_name c =
    load_at malloc files (build_path case_dir file_name) c

abbrev pub cons_turn :
    Option EnemyInstruction
    → Outcome (List (Option EnemyInstruction))
    → Outcome (List (Option EnemyInstruction))
cons_turn i (done is c) = done (i ∷ is) c
cons_turn i (failed c) = failed c
cons_turn i faulted = faulted

abbrev pub with_turn :
    Outcome (Option EnemyInstruction)
    → (Chain EnemyInstruction → Outcome (List (Option EnemyInstruction)))
    → Outcome (List (Option EnemyInstruction))
with_turn (done i c) rest = cons_turn i (rest c)
with_turn (failed c) rest = failed c
with_turn faulted rest = faulted

-- A ghost's turns in which it takes instructions, one each.
unfoldable pub pop_all : ℕ → Chain EnemyInstruction → Outcome (List (Option EnemyInstruction))
pop_all zero c = done [] c
pop_all (suc n) c = with_turn (pop_instruction c) (pop_all n)
