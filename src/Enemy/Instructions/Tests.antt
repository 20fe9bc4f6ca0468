-- ===== src/Enemy/Instructions/Tests.antt =====
-- A ghost with one instruction and a line that holds none.
use pacman_posix.Prelude.{ℕ, ◌≡◌, refl, Bool, true, false, Option, none, some, if◌then◌else◌, arith}
use pacman_posix.Text.{codes, fgets_all}
use pacman_posix.Environment.{File, build_path}
use pacman_posix.Chain.{Store, empty_chain}
use pacman_posix.Enemy.{EnemyInstruction}
use pacman_posix.Enemy.Instructions.{load_ghost_instructions}
use pacman_posix.Enemy.Instructions.Loaded.{Serves, instructions_of, load_ghost_instructions-Serves}

abbrev is_free : {A : Type 0} → Option A → Bool
is_free none = true
is_free (some x) = false

abbrev one_free : ℕ → Store EnemyInstruction → Option ℕ
one_free k s = if is_free (s 3) then some 3 else none

one_free_unused : (k : ℕ) (s : Store EnemyInstruction) (p : ℕ) → one_free k s ≡ some p → s p ≡ none
one_free_unused k s p e = ground arith

abbrev ghost_file : File
ghost_file = record { contents = codes "LEFT\nJUMP\n"; read_error = false }

load_ghost_instructions-Serves_example :
    Serves 2 (instructions_of (fgets_all ghost_file.contents)) (
      load_ghost_instructions one_free
        (λ path. some ghost_file)
        (codes "c")
        (codes "g")
        (empty_chain (λ p. none)))
load_ghost_instructions-Serves_example =
    load_ghost_instructions-Serves one_free (λ path. some ghost_file) (codes "c") (codes "g")
      (codes "c/g") ghost_file (λ p. none) 2 one_free_unused (unfold build_path in refl) refl
