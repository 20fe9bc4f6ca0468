-- ===== src/Pacman/Queue/Tests.antt =====
-- The queue with two free addresses, and a file of two instructions.
use pacman_posix.Prelude.{
  ℕ, ◌≡◌, refl, Bool, true, false, [], ◌∷◌, Option, none, some, if◌then◌else◌, arith, length, All,
  inl, inr,
}
use pacman_posix.Prelude.Int.{pos}
use pacman_posix.Text.{
  Bytes, codes, c_string, fgets_all, has_prefix, streq, strip_end, leading, is_digit, digits_value,
}
use pacman_posix.Environment.{FileSystem, build_path}
use pacman_posix.Movement.{
  movement_load_file, loaded, load_lines, load_opened, load_path, strip_line, is_blank, is_line_end,
  is_valid_instruction, is_digits, all_digits,
}
use pacman_posix.Chain.{Store, Chain, empty_chain}
use pacman_posix.Chain.Cells.{Holds}
use pacman_posix.Chain.Append.{empty_chain-Holds, link_node-Holds}
use pacman_posix.Posix.{World}
use pacman_posix.Pacman.{PacmanInstruction, move_up, instruction_move}
use pacman_posix.Pacman.Queue.{PacmanInstructionQueue, queue_pop, read_moves}
use pacman_posix.Pacman.Queue.Pop.{Popped, queue_pop-Popped}
use pacman_posix.Pacman.Queue.Reader.{Added, instructions_of, read_moves-Added}
use pacman_posix.Pacman.Queue.Counted.{AsksInRange, movement_load_file-instructions_of}

abbrev is_free : {A : Type 0} → Option A → Bool
is_free none = true
is_free (some x) = false

abbrev two_free : ℕ → Store PacmanInstruction → Option ℕ
two_free k s = if is_free (s 4) then some 4 else if is_free (s 7) then some 7 else none

two_free_unused : (k : ℕ) (s : Store PacmanInstruction) (p : ℕ) → two_free k s ≡ some p → s p ≡ none
two_free_unused k s p e = ground arith

abbrev empty_queue : World PacmanInstructionQueue
empty_queue = record {
  at = record {
    chain = empty_chain (λ p. none);
    count = 0;
    reader_done = false;
    should_stop = false;
    available = 0;
  };
  live = λ _. true;
  held = λ _. false;
  calls = 0;
  succeeds = λ _. true;
}

abbrev up : PacmanInstruction
up = record { type = instruction_move; direction = move_up; priority = pos 0; text = codes "UP" }

-- The chain whose only node holds the instruction, at address 4.
abbrev one_instruction : (d : Chain PacmanInstruction) × Holds d (up ∷ [])
one_instruction =
    let (d, e, k) =
      link_node-Holds (empty_chain (λ p. none)) [] 4 up (empty_chain-Holds (λ p. none)) refl in
    (d, k)

abbrev filled_queue : World PacmanInstructionQueue
filled_queue = record empty_queue {
  at = record empty_queue.at { chain = one_instruction.0; count = 1; available = 1 };
}

queue_pop-Popped_example : Popped filled_queue (up ∷ []) (queue_pop filled_queue)
queue_pop-Popped_example =
    queue_pop-Popped filled_queue (up ∷ []) one_instruction.1 refl (omega arith)

abbrev text : Bytes
text = codes "UP\nSET_PRIORITY 7\n"

read_moves-Added_example :
    Added [] (instructions_of (fgets_all text)) (read_moves two_free 0 (fgets_all text) empty_queue)
read_moves-Added_example =
    read_moves-Added two_free two_free_unused 0 (fgets_all text) [] empty_queue
      (empty_chain-Holds (λ p. none)) refl

abbrev files : FileSystem
files path = some (record { contents = text; read_error = false })

accepted_text : movement_load_file files (codes "c") (codes "m") ≡ loaded 2
unfolding movement_load_file load_path load_opened load_lines build_path fgets_all c_string
    strip_line strip_end leading is_blank is_line_end is_valid_instruction streq has_prefix
    is_digits all_digits is_digit
accepted_text = refl

asks_in_range : All AsksInRange (fgets_all text)
unfolding fgets_all c_string strip_line strip_end leading is_blank is_line_end has_prefix
    digits_value is_digit
asks_in_range = (inl refl, (inr (omega arith), tt))

movement_load_file-instructions_of_example : length (instructions_of (fgets_all text)) ≡ 2
movement_load_file-instructions_of_example =
    movement_load_file-instructions_of files (codes "c") (codes "m") (codes "c/m")
      (record { contents = text; read_error = false }) 2 accepted_text (unfold build_path in refl)
      refl asks_in_range
