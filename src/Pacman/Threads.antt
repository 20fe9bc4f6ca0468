-- ===== src/Pacman/Threads.antt =====
-- src/pacman.c, `pacman_process_run`: the reader, the executor and the publisher of P1, as steps that
-- interleave with each other and with the turns that P0 gives. A step is one critical section or one
-- call on a semaphore; a thread that waits on a semaphore has no step while its value is 0.
pub mod Leads
pub mod Order
pub mod Handshake
pub mod Progress
mod Tests
use pacman_posix.Prelude.{
  ℕ, suc, ◌+◌, ◌≡◌, Bool, true, false, ◌||◌, List, [], ◌∷◌, ◌++◌, if◌then◌else◌,
}
use pacman_posix.Prelude.Int.{ℤ}
use pacman_posix.Shared.{SharedState}
use pacman_posix.Pacman.{
  PacmanInstruction, PacmanInstructionType, instruction_move, instruction_set_priority,
  PacmanContext, move, ask_priority,
}

-- Where each thread stands in its loop. `reader_gone` is a reader that has ended and could not say so;
-- `leaving` is an executor that could not request the publication.
pub data ReaderPlace : Type 0 where
  reading announcing marking announcing_end reader_ended reader_gone : ReaderPlace

pub data ExecutorPlace : Type 0 where
  awaiting_turn checking_game trying found_none awaiting_instruction taking requesting_publish :
      ExecutorPlace
  stopping posting_stop posting_last executor_ended : ExecutorPlace
  leaving posting_leave : ExecutorPlace
  processing : PacmanInstruction → ExecutorPlace

pub data PublisherPlace : Type 0 where
  awaiting_request checking_over reading_local confirming publisher_ended : PublisherPlace
  writing : (x y score : ℤ) → PublisherPlace

-- `PacmanContext` with its queue, whose list is a FIFO (Chain.Fifo), and the places of the threads.
-- `unread` are the instructions of the file that are not in the queue yet, `taken` those that the
-- executor has popped, `processed` those that it has carried out; `pacman_turn` and `p1_done` are the
-- semaphores between P0 and P1, `given` and `confirmed` count the turns that P0 gave and saw
-- confirmed; `wait_failed` is whether the executor's `sem_wait` for a turn has failed.
pub record PacmanProcess : Type 0 where
  pub context : PacmanContext
  pub unread : List PacmanInstruction
  pub queue : List PacmanInstruction
  pub taken : List PacmanInstruction
  pub processed : List PacmanInstruction
  pub available : ℕ
  pub reader_done : Bool
  pub should_stop : Bool
  pub pacman_turn : ℕ
  pub publish_requested : ℕ
  pub p1_done : ℕ
  pub given : ℕ
  pub confirmed : ℕ
  pub wait_failed : Bool
  pub reader_at : ReaderPlace
  pub executor_at : ExecutorPlace
  pub publisher_at : PublisherPlace

-- After `context_init` and the three `pthread_create`, before the first turn.
unfoldable pub start_process : PacmanContext → List PacmanInstruction → PacmanProcess
start_process context program = record {
  context = context;
  unread = program;
  queue = [];
  taken = [];
  processed = [];
  available = 0;
  reader_done = false;
  should_stop = false;
  pacman_turn = 0;
  publish_requested = 0;
  p1_done = 0;
  given = 0;
  confirmed = 0;
  wait_failed = false;
  reader_at = reading;
  executor_at = awaiting_turn;
  publisher_at = awaiting_request;
}

-- What `process_instruction` does to the context, by the type of the instruction.
abbrev pub carry_out_type :
    PacmanInstructionType → PacmanInstruction → PacmanContext → PacmanContext
carry_out_type instruction_move i c = move i.direction c
carry_out_type instruction_set_priority i c = record c { shared = ask_priority i.priority c.shared }

unfoldable pub carry_out : PacmanInstruction → PacmanContext → PacmanContext
carry_out i c = carry_out_type i.type i c

-- What the publisher writes to the shared state.
unfoldable pub publish : ℤ → ℤ → ℤ → PacmanContext → PacmanContext
publish x y score c = record c {
  shared = record c.shared { pacman_x = x; pacman_y = y; pacman_score = score };
}

-- A step of one of the three threads.
pub data ThreadStep : PacmanProcess → PacmanProcess → Type 0 where
  reader_pushes :
      (s : PacmanProcess) (i : PacmanInstruction) (rest : List PacmanInstruction)
      → s.reader_at ≡ reading
      → s.unread ≡ i ∷ rest
      → ThreadStep s (record s { unread = rest; queue = s.queue ++ i ∷ []; reader_at = announcing })
  reader_announces :
      (s : PacmanProcess)
      → s.reader_at ≡ announcing
      → ThreadStep s (record s { available = s.available + 1; reader_at = reading })
  reader_finishes :
      (s : PacmanProcess)
      → s.reader_at ≡ reading
      → s.unread ≡ []
      → ThreadStep s (record s { reader_at = marking })
  reader_marks :
      (s : PacmanProcess)
      → s.reader_at ≡ marking
      → ThreadStep s (record s { reader_done = true; reader_at = announcing_end })
  reader_ends :
      (s : PacmanProcess)
      → s.reader_at ≡ announcing_end
      → ThreadStep s (record s { available = s.available + 1; reader_at = reader_ended })
  executor_takes_turn :
      (s : PacmanProcess) (n : ℕ)
      → s.executor_at ≡ awaiting_turn
      → s.pacman_turn ≡ suc n
      → ThreadStep s (record s { pacman_turn = n; executor_at = checking_game })
  executor_checks :
      (s : PacmanProcess)
      → s.executor_at ≡ checking_game
      → ThreadStep s
          (record s { executor_at = if s.context.shared.game_over then stopping else trying })
  executor_tries :
      (s : PacmanProcess) (n : ℕ)
      → s.executor_at ≡ trying
      → s.available ≡ suc n
      → ThreadStep s (record s { available = n; executor_at = taking })
  executor_finds_none :
      (s : PacmanProcess)
      → s.executor_at ≡ trying
      → s.available ≡ 0
      → ThreadStep s (record s { executor_at = found_none })
  executor_looks :
      (s : PacmanProcess)
      → s.executor_at ≡ found_none
      → ThreadStep s (record s {
        executor_at =
            if s.reader_done || s.should_stop then requesting_publish else awaiting_instruction;
      })
  executor_wakes :
      (s : PacmanProcess) (n : ℕ)
      → s.executor_at ≡ awaiting_instruction
      → s.available ≡ suc n
      → ThreadStep s (record s { available = n; executor_at = taking })
  executor_pops :
      (s : PacmanProcess) (i : PacmanInstruction) (rest : List PacmanInstruction)
      → s.executor_at ≡ taking
      → s.queue ≡ i ∷ rest
      → ThreadStep s
          (record s { queue = rest; taken = s.taken ++ i ∷ []; executor_at = processing i })
  executor_pops_none :
      (s : PacmanProcess)
      → s.executor_at ≡ taking
      → s.queue ≡ []
      → ThreadStep s (record s { executor_at = requesting_publish })
  executor_processes :
      (s : PacmanProcess) (i : PacmanInstruction)
      → s.executor_at ≡ processing i
      → ThreadStep s (record s {
        context = carry_out i s.context;
        processed = s.processed ++ i ∷ [];
        executor_at = requesting_publish;
      })
  executor_requests :
      (s : PacmanProcess)
      → s.executor_at ≡ requesting_publish
      → ThreadStep s
          (record s { publish_requested = s.publish_requested + 1; executor_at = awaiting_turn })
  executor_stops :
      (s : PacmanProcess)
      → s.executor_at ≡ stopping
      → ThreadStep s (record s { should_stop = true; executor_at = posting_stop })
  executor_posts_stop :
      (s : PacmanProcess)
      → s.executor_at ≡ posting_stop
      → ThreadStep s (record s { available = s.available + 1; executor_at = posting_last })
  executor_ends :
      (s : PacmanProcess)
      → s.executor_at ≡ posting_last
      → ThreadStep s
          (record s { publish_requested = s.publish_requested + 1; executor_at = executor_ended })
  executor_leaves :
      (s : PacmanProcess)
      → s.executor_at ≡ leaving
      → ThreadStep s (record s { should_stop = true; executor_at = posting_leave })
  executor_posts_leave :
      (s : PacmanProcess)
      → s.executor_at ≡ posting_leave
      → ThreadStep s (record s { available = s.available + 1; executor_at = executor_ended })
  publisher_wakes :
      (s : PacmanProcess) (n : ℕ)
      → s.publisher_at ≡ awaiting_request
      → s.publish_requested ≡ suc n
      → ThreadStep s (record s { publish_requested = n; publisher_at = checking_over })
  publisher_checks :
      (s : PacmanProcess)
      → s.publisher_at ≡ checking_over
      → ThreadStep s (record s {
        publisher_at = if s.context.shared.game_over then publisher_ended else reading_local;
      })
  publisher_reads :
      (s : PacmanProcess)
      → s.publisher_at ≡ reading_local
      → ThreadStep s (record s { publisher_at = writing s.context.x s.context.y s.context.score })
  publisher_writes :
      (s : PacmanProcess) (x y score : ℤ)
      → s.publisher_at ≡ writing x y score
      → ThreadStep s (record s { context = publish x y score s.context; publisher_at = confirming })
  publisher_confirms :
      (s : PacmanProcess)
      → s.publisher_at ≡ confirming
      → ThreadStep s (record s { p1_done = s.p1_done + 1; publisher_at = awaiting_request })

-- Where the reader may find that a call failed.
abbrev pub is_in_loop : ReaderPlace → Bool
is_in_loop reading = true
is_in_loop announcing = true
is_in_loop _ = false

-- Where the executor has taken a turn and may find that a call failed.
abbrev pub may_fail : ExecutorPlace → Bool
may_fail checking_game = true
may_fail trying = true
may_fail found_none = true
may_fail awaiting_instruction = true
may_fail taking = true
may_fail (processing i) = true
may_fail _ = false

-- Nobody writes to the map once P0 has made it.
abbrev pub SameMap : SharedState → SharedState → Type 0
SameMap s t = (t.map_rows ≡ s.map_rows) × (t.map_cols ≡ s.map_cols) × (t.map_grid ≡ s.map_grid)

-- A step of P1, or of P0, or of another process that writes to the shared state, or of a thread of
-- which a call fails before it has an effect. An executor that has its turn, or that could not wait for
-- one, goes the way of `game_over`; within `queue_request_stop` and `queue_mark_reader_done`, whose
-- results nobody looks at, it or the reader leaves out the rest.
pub data Step : PacmanProcess → PacmanProcess → Type 0 where
  thread : {s t : PacmanProcess} → ThreadStep s t → Step s t
  turn_given :
      (s : PacmanProcess)
      → Step s (record s { pacman_turn = s.pacman_turn + 1; given = s.given + 1 })
  turn_confirmed :
      (s : PacmanProcess) (n : ℕ)
      → s.p1_done ≡ suc n
      → Step s (record s { p1_done = n; confirmed = s.confirmed + 1 })
  others_write :
      (s : PacmanProcess) (shared : SharedState)
      → SameMap s.context.shared shared
      → Step s (record s { context = record s.context { shared = shared } })
  reader_breaks :
      (s : PacmanProcess)
      → is_in_loop s.reader_at ≡ true
      → Step s (record s { reader_at = marking })
  reader_cannot_mark :
      (s : PacmanProcess) → s.reader_at ≡ marking → Step s (record s { reader_at = reader_gone })
  reader_cannot_end :
      (s : PacmanProcess)
      → s.reader_at ≡ announcing_end
      → Step s (record s { reader_at = reader_gone })
  executor_cannot_wait :
      (s : PacmanProcess)
      → s.executor_at ≡ awaiting_turn
      → Step s (record s { wait_failed = true; executor_at = stopping })
  executor_fails :
      (s : PacmanProcess)
      → may_fail s.executor_at ≡ true
      → Step s (record s { executor_at = stopping })
  executor_cannot_request :
      (s : PacmanProcess)
      → s.executor_at ≡ requesting_publish
      → Step s (record s { executor_at = leaving })
  executor_cannot_stop :
      (s : PacmanProcess)
      → s.executor_at ≡ stopping
      → Step s (record s { executor_at = posting_last })
  executor_cannot_post_stop :
      (s : PacmanProcess)
      → s.executor_at ≡ posting_stop
      → Step s (record s { executor_at = posting_last })
  executor_cannot_end :
      (s : PacmanProcess)
      → s.executor_at ≡ posting_last
      → Step s (record s { executor_at = executor_ended })
  executor_cannot_leave :
      (s : PacmanProcess)
      → s.executor_at ≡ leaving
      → Step s (record s { executor_at = executor_ended })
  executor_cannot_post_leave :
      (s : PacmanProcess)
      → s.executor_at ≡ posting_leave
      → Step s (record s { executor_at = executor_ended })
  publisher_fails : (s : PacmanProcess) → Step s (record s { publisher_at = publisher_ended })

-- What can come of `s`.
pub data Reaches : PacmanProcess → PacmanProcess → Type 0 where
  here : (s : PacmanProcess) → Reaches s s
  then : {s t u : PacmanProcess} → Reaches s t → Step t u → Reaches s u
