-- ===== src/Pacman/Queue.antt =====
-- src/pacman.c: the queue between the thread that reads the instructions and the one that carries
-- them out, and the reading thread.
pub mod Push
pub mod Pop
pub mod Reader
pub mod Counted
mod Tests
use pacman_posix.Prelude.{
  ℕ, suc, ◌+◌, ◌-◌, ◌%◌, ◌^◌, Bool, true, false, ◌||◌, List, [], ◌∷◌, Option, none, some, length,
  ltb, ◌==◌, if◌then◌else◌,
}
use pacman_posix.Text.{Bytes, codes, c_string, fgets_all}
use pacman_posix.Environment.{File, FileSystem, build_path}
use pacman_posix.Movement.{strip_line}
use pacman_posix.Chain.{
  Store, Chain, empty_chain, write_node, free_node, link_node, Taken, nothing, taken, dangling,
  take_first,
}
use pacman_posix.Posix.{
  Object, M, World, Status, ok, error, stuck, ◌>>=◌, ◌>>◌, pure, raise, on_error, modify, call,
  init, destroy, lock_mutex, unlock_mutex, critical, queue_mutex, queue_available,
}
use pacman_posix.Pacman.{PacmanInstruction, parse_instruction}

-- The semaphore `available` is its value.
pub record PacmanInstructionQueue : Type 0 where
  pub chain : Chain PacmanInstruction
  pub count : ℕ
  pub reader_done : Bool
  pub should_stop : Bool
  pub available : ℕ

abbrev pub QueueM : Type 0 → Type 0
QueueM = M PacmanInstructionQueue

-- `memset(queue, 0, sizeof(*queue))`
unfoldable pub zero_queue : PacmanInstructionQueue → PacmanInstructionQueue
zero_queue q = record {
  chain = empty_chain q.chain.store;
  count = 0;
  reader_done = false;
  should_stop = false;
  available = 0;
}

unfoldable pub queue_init : QueueM (Unit {0})
queue_init =
    modify zero_queue
    >> init queue_mutex
    >> on_error (init queue_available) (destroy queue_mutex >> raise)

abbrev pub on_chain :
    (Chain PacmanInstruction → Chain PacmanInstruction)
    → PacmanInstructionQueue
    → PacmanInstructionQueue
on_chain f q = record q { chain = f q.chain }

abbrev pub or_stuck : Option (Chain PacmanInstruction) → QueueM (Unit {0})
or_stuck none w = (stuck, w)
or_stuck (some c) w = (ok tt, record w { at = record w.at { chain = c } })

-- The node at `p` is linked behind the last one.
abbrev pub link : ℕ → QueueM (Unit {0})
link p w = or_stuck (link_node p w.at.chain) w

-- `++queue->count;` of a `size_t`.
abbrev pub count_up : PacmanInstructionQueue → PacmanInstructionQueue
count_up q = record q { count = (q.count + 1) % 2 ^ 64 }

abbrev pub post_available : PacmanInstructionQueue → PacmanInstructionQueue
post_available q = record q { available = q.available + 1 }

-- What follows the lock in `queue_push`.
abbrev pub push_locked : ℕ → QueueM (Unit {0})
push_locked p =
    link p >> modify count_up >> unlock_mutex queue_mutex >> call >> modify post_available

-- `node` is what `malloc` returned.
unfoldable pub queue_push : (node : Option ℕ) → PacmanInstruction → QueueM (Unit {0})
queue_push none i = raise
queue_push (some p) i =
    modify (on_chain (write_node p i))
    >> (on_error (lock_mutex queue_mutex) (modify (on_chain (free_node p)) >> raise)
        >> push_locked p)

-- `queue_pop_locked`: `none` where it returns PACMAN_ERROR.
abbrev pub popped : Taken PacmanInstruction → QueueM (Option PacmanInstruction)
popped nothing w = (ok none, w)
popped (taken i c) w = (
  ok (some i),
  record w { at = record w.at { chain = c; count = (w.at.count + 2 ^ 64 - 1) % 2 ^ 64 } },
)
popped dangling w = (stuck, w)

unfoldable pub queue_pop_locked : QueueM (Option PacmanInstruction)
queue_pop_locked w = popped (take_first w.at.chain) w

abbrev pub take_available : PacmanInstructionQueue → PacmanInstructionQueue
take_available q = record q { available = q.available - 1 }

-- After the semaphore was taken.
unfoldable pub pop_taken : QueueM (Option PacmanInstruction)
unfolding queue_pop_locked
pop_taken = lock_mutex queue_mutex >> (queue_pop_locked >>= λ i. unlock_mutex queue_mutex >> pure i)

-- `sem_wait`: another thread has to post where the value is 0.
unfoldable pub wait_available : QueueM (Unit {0})
wait_available w = if w.at.available == 0 then (stuck, w) else (call >> modify take_available) w

-- Where `sem_trywait` found the value 0.
unfoldable pub pop_none : QueueM (Option PacmanInstruction)
pop_none = critical queue_mutex (λ q. q) (λ q. q.reader_done || q.should_stop) >>= λ done.
    if done then pure none else wait_available >> pop_taken

-- `sem_trywait` gives EAGAIN where the value is 0, and may fail otherwise.
unfoldable pub queue_pop : QueueM (Option PacmanInstruction)
queue_pop w =
    if w.at.available == 0 then pop_none w else (call >> modify take_available >> pop_taken) w

unfoldable pub queue_mark_reader_done : QueueM (Unit {0})
queue_mark_reader_done =
    critical queue_mutex (λ q. record q { reader_done = true }) (λ _. tt)
    >> call
    >> modify post_available

unfoldable pub queue_request_stop : QueueM (Unit {0})
queue_request_stop =
    critical queue_mutex (λ q. record q { should_stop = true }) (λ _. tt)
    >> call
    >> modify post_available

-- `if (m != PACMAN_OK) { break; }`, and otherwise the rest of the loop.
abbrev pub or_break :
    Status (Unit {0}) × World PacmanInstructionQueue
    → QueueM (Unit {0})
    → Status (Unit {0}) × World PacmanInstructionQueue
or_break (ok u, w) rest = rest w
or_break (error, w) rest = (ok tt, w)
or_break (stuck, w) rest = (stuck, w)

abbrev pub push_or_skip :
    Option PacmanInstruction
    → (Store PacmanInstruction → Option ℕ)
    → QueueM (Unit {0})
    → QueueM (Unit {0})
push_or_skip none malloc rest w = rest w
push_or_skip (some i) malloc rest w = or_break (queue_push (malloc w.at.chain.store) i w) rest

-- The instruction in one line, if there is one.
unfoldable pub line_instruction : Bytes → Option PacmanInstruction
line_instruction buffer =
    let line = strip_line (c_string buffer) in
    if length line == 0 then none else parse_instruction line

-- The loop of `movement_reader_thread`; `malloc k` is what `malloc` does for the k-th line.
unfoldable pub read_moves :
    (ℕ → Store PacmanInstruction → Option ℕ) → ℕ → List Bytes → QueueM (Unit {0})
read_moves malloc k [] = pure tt
read_moves malloc k (buffer ∷ rest) =
    let next = read_moves malloc (k + 1) rest in
    push_or_skip (line_instruction buffer) (malloc k) next

abbrev pub read_opened : (ℕ → Store PacmanInstruction → Option ℕ) → Option File → QueueM (Unit {0})
read_opened malloc none = pure tt
read_opened malloc (some file) = read_moves malloc 0 (fgets_all file.contents)

abbrev pub read_path :
    (ℕ → Store PacmanInstruction → Option ℕ) → FileSystem → Option Bytes → QueueM (Unit {0})
read_path malloc files none = pure tt
read_path malloc files (some path) = read_opened malloc (files path)

unfoldable pub movement_reader_thread :
    (ℕ → Store PacmanInstruction → Option ℕ) → FileSystem → Bytes → QueueM (Unit {0})
movement_reader_thread malloc files case_dir =
    read_path malloc files (build_path case_dir (codes "pacman_moves.txt"))
    >> queue_mark_reader_done
