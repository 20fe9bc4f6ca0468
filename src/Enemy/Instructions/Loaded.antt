-- ===== src/Enemy/Instructions/Loaded.antt =====
-- What a ghost carries out is what its file says.
use pacman_posix.Prelude.{
  ℕ, zero, suc, ◌+◌, ◌≡◌, ◌⊎◌, refl, sym, subst, inl, inr, Bool, true, false, List, [], ◌∷◌, ◌++◌,
  Option, none, some, Option-cases,
}
use mathlib.Core.List.{append-nil, append_assoc}
use pacman_posix.Text.{Bytes, fgets_all}
use pacman_posix.Environment.{File, FileSystem, build_path}
use pacman_posix.Chain.{Store, Chain, empty_chain}
use pacman_posix.Chain.Cells.{Holds}
use pacman_posix.Chain.Append.{
  link_node-Holds, take_first-Holds, take_first_nothing, empty_chain-Holds,
}
use pacman_posix.Enemy.{EnemyInstruction}
use pacman_posix.Enemy.Instructions.{
  Outcome, done, failed, faulted, append_instruction, pop_instruction, line_instruction, and_then,
  load_lines, load_ghost_instructions, pop_all,
}

abbrev keep : Option EnemyInstruction → List EnemyInstruction → List EnemyInstruction
keep none is = is
keep (some i) is = i ∷ is

-- The instructions in the lines of a file: lines that hold none are left out.
unfoldable pub instructions_of : List Bytes → List EnemyInstruction
instructions_of [] = []
instructions_of (buffer ∷ rest) = keep (line_instruction buffer) (instructions_of rest)

-- Turn by turn, the instructions `is` and then none.
unfoldable pub turns_of : ℕ → List EnemyInstruction → List (Option EnemyInstruction)
turns_of zero is = []
turns_of (suc n) [] = none ∷ turns_of n []
turns_of (suc n) (i ∷ is) = some i ∷ turns_of n is

-- A load that ends: with all of `is` behind `xs`, or with an error; no pointer dangles.
data Ends (xs is : List EnemyInstruction) : Outcome (Unit {0}) → Type 0 where
  all : {c : Chain EnemyInstruction} → Holds c (xs ++ is) → Ends xs is (done tt c)
  broke : {c : Chain EnemyInstruction} → Ends xs is (failed c)

module _ (malloc : ℕ → Store EnemyInstruction → Option ℕ)
    (unused : (k : ℕ) (s : Store EnemyInstruction) (p : ℕ) → malloc k s ≡ some p → s p ≡ none) where
  append_by :
      (xs is : List EnemyInstruction) (i : EnemyInstruction) (c : Chain EnemyInstruction)
      (next : Chain EnemyInstruction → Outcome (Unit {0})) (node : Option ℕ)
      → ((p : ℕ) → node ≡ some p → c.store p ≡ none)
      → Holds c xs
      → ((d : Chain EnemyInstruction) → Holds d (xs ++ i ∷ []) → Ends (xs ++ i ∷ []) is (next d))
      → Ends xs (i ∷ is) (and_then (append_instruction node i c) next)
  unfolding append_instruction
  append_by xs is i c next none free h ih = broke
  append_by xs is i c next (some p) free h ih =
      let (d, e, k) = link_node-Holds c xs p i h (free p refl) in rw e (longer (next d) (ih d k))
    where
      longer : (r : Outcome (Unit {0})) → Ends (xs ++ i ∷ []) is r → Ends xs (i ∷ is) r
      longer (done u d) (Ends.all h) = Ends.all (subst (Holds d) (append_assoc xs (i ∷ []) is) h)
      longer (failed d) Ends.broke = Ends.broke
      longer faulted h = elim h [ ]

  load_lines-Ends :
      (read_error : Bool) (k : ℕ) (lines : List Bytes) (xs : List EnemyInstruction)
      (c : Chain EnemyInstruction)
      → Holds c xs
      → Ends xs (instructions_of lines) (load_lines malloc read_error k lines c)
  unfolding load_lines instructions_of
  load_lines-Ends true k [] xs c h = broke
  load_lines-Ends false k [] xs c h = all (subst (Holds c) (sym (append-nil xs)) h)
  load_lines-Ends r k (buffer ∷ rest) xs c h = elim (Option-cases (line_instruction buffer)) [
    | inl e ↦ rw e (load_lines-Ends r (k + 1) rest xs c h)
    | inr (i, e) ↦ rw e (
        append_by xs (instructions_of rest) i c (load_lines malloc r (k + 1) rest)
          (malloc k c.store) (unused k c.store) h (load_lines-Ends r (k + 1) rest (xs ++ i ∷ [])))
  ]

-- Taking instructions from a list that holds `is`.
pop_all-turns_of :
    (n : ℕ) (is : List EnemyInstruction) (c : Chain EnemyInstruction)
    → Holds c is
    → (d : Chain EnemyInstruction) × (pop_all n c ≡ done (turns_of n is) d)
unfolding pop_all pop_instruction turns_of
pop_all-turns_of zero is c h = (c, refl)
pop_all-turns_of (suc n) [] c h =
    let e = take_first_nothing c h in let (d, r) = pop_all-turns_of n [] c h in (d, rw (e, r) refl)
pop_all-turns_of (suc n) (i ∷ is) c h =
    let (k, e, l) = take_first-Holds c i is h in
    let (d, r) = pop_all-turns_of n is k l in (d, rw (e, r) refl)

-- After a load, `n` turns of the ghost give `is` and then none; or the load failed.
abbrev pub Serves : ℕ → List EnemyInstruction → Outcome (Unit {0}) → Type 0
Serves n is r =
    ((c : Chain EnemyInstruction) × (r ≡ done tt c)
      × (d : Chain EnemyInstruction) × (pop_all n c ≡ done (turns_of n is) d))
    ⊎ ((c : Chain EnemyInstruction) × (r ≡ failed c))

Ends-Serves :
    (n : ℕ) (is : List EnemyInstruction) (r : Outcome (Unit {0})) → Ends [] is r → Serves n is r
Ends-Serves n is (done u c) (Ends.all h) =
    let (d, e) = pop_all-turns_of n is c h in inl (c, refl, d, e)
Ends-Serves n is (failed c) Ends.broke = inr (c, refl)
Ends-Serves n is faulted h = elim h [ ]

-- `load_ghost_instructions` from a file that can be opened, wherever `malloc` puts the nodes or returns
-- NULL: it returns PACMAN_OK, and in its first `n` turns the ghost then takes the instructions of the
-- lines of its file, in order, and then none; or it returns PACMAN_ERROR. No pointer dangles.
pub load_ghost_instructions-Serves :
    (malloc : ℕ → Store EnemyInstruction → Option ℕ) (files : FileSystem)
    (case_dir file_name path : Bytes) (file : File) (store : Store EnemyInstruction) (n : ℕ)
    → ((k : ℕ) (s : Store EnemyInstruction) (p : ℕ) → malloc k s ≡ some p → s p ≡ none)
    → build_path case_dir file_name ≡ some path
    → files path ≡ some file
    → Serves n
        (instructions_of (fgets_all file.contents))
        (load_ghost_instructions malloc files case_dir file_name (empty_chain store))
unfolding load_ghost_instructions
load_ghost_instructions-Serves malloc files case_dir file_name path file store n unused e o =
    Ends-Serves n (instructions_of (fgets_all file.contents)) _ (
      rw (e, o)
        (load_lines-Ends malloc unused file.read_error 0 (fgets_all file.contents) []
          (empty_chain store) (empty_chain-Holds store)))
