-- ===== src/Pacman/Threads/Handshake.antt =====
-- Turns and confirmations: each turn that P1 confirms, once at most.
use pacman_posix.Prelude.{ℕ, ◌+◌, ◌≤◌, Bool, true, false, List, arith}
use pacman_posix.Pacman.{PacmanInstruction, PacmanContext}
use pacman_posix.Pacman.Threads.{
  ExecutorPlace, awaiting_turn, executor_ended, stopping, posting_stop, posting_last, leaving,
  posting_leave, PublisherPlace, awaiting_request, publisher_ended, PacmanProcess, start_process,
  ThreadStep, Step, Reaches,
}

abbrev executes : ExecutorPlace → ℕ
executes awaiting_turn = 0
executes executor_ended = 0
executes leaving = 0
executes posting_leave = 0
executes _ = 1

abbrev publishes : PublisherPlace → ℕ
publishes awaiting_request = 0
publishes publisher_ended = 0
publishes _ = 1

-- The turns that are on their way through P1.
abbrev pub under_way : PacmanProcess → ℕ
under_way s =
    s.pacman_turn
    + executes s.executor_at
    + s.publish_requested
    + publishes s.publisher_at
    + s.p1_done

abbrev pub one_if : Bool → ℕ
one_if true = 1
one_if false = 0

-- 1 for an executor that will take no turn any more.
abbrev is_last : ExecutorPlace → ℕ
is_last stopping = 1
is_last posting_stop = 1
is_last posting_last = 1
is_last executor_ended = 1
is_last _ = 0

record Accounted (s : PacmanProcess) : Type 0 where
  turns : s.confirmed + under_way s ≤ s.given + one_if s.wait_failed
  only_last : one_if s.wait_failed ≤ is_last s.executor_at

ThreadStep-Accounted : {s t : PacmanProcess} → ThreadStep s t → Accounted s → Accounted t
ThreadStep-Accounted (ThreadStep.reader_pushes s i rest e u) h = record {
  turns = ground arith;
  only_last = ground arith;
}
ThreadStep-Accounted (ThreadStep.reader_announces s e) h = record {
  turns = ground arith;
  only_last = ground arith;
}
ThreadStep-Accounted (ThreadStep.reader_finishes s e u) h = record {
  turns = ground arith;
  only_last = ground arith;
}
ThreadStep-Accounted (ThreadStep.reader_marks s e) h = record {
  turns = ground arith;
  only_last = ground arith;
}
ThreadStep-Accounted (ThreadStep.reader_ends s e) h = record {
  turns = ground arith;
  only_last = ground arith;
}
ThreadStep-Accounted (ThreadStep.executor_takes_turn s n e t) h = record {
  turns = ground arith;
  only_last = ground arith;
}
ThreadStep-Accounted (ThreadStep.executor_checks s e) h = record {
  turns = ground arith;
  only_last = ground arith;
}
ThreadStep-Accounted (ThreadStep.executor_tries s n e a) h = record {
  turns = ground arith;
  only_last = ground arith;
}
ThreadStep-Accounted (ThreadStep.executor_finds_none s e a) h = record {
  turns = ground arith;
  only_last = ground arith;
}
ThreadStep-Accounted (ThreadStep.executor_looks s e) h = record {
  turns = ground arith;
  only_last = ground arith;
}
ThreadStep-Accounted (ThreadStep.executor_wakes s n e a) h = record {
  turns = ground arith;
  only_last = ground arith;
}
ThreadStep-Accounted (ThreadStep.executor_pops s i rest e q) h = record {
  turns = ground arith;
  only_last = ground arith;
}
ThreadStep-Accounted (ThreadStep.executor_pops_none s e q) h = record {
  turns = ground arith;
  only_last = ground arith;
}
ThreadStep-Accounted (ThreadStep.executor_processes s i e) h = record {
  turns = ground arith;
  only_last = ground arith;
}
ThreadStep-Accounted (ThreadStep.executor_requests s e) h = record {
  turns = ground arith;
  only_last = ground arith;
}
ThreadStep-Accounted (ThreadStep.executor_stops s e) h = record {
  turns = ground arith;
  only_last = ground arith;
}
ThreadStep-Accounted (ThreadStep.executor_posts_stop s e) h = record {
  turns = ground arith;
  only_last = ground arith;
}
ThreadStep-Accounted (ThreadStep.executor_ends s e) h = record {
  turns = ground arith;
  only_last = ground arith;
}
ThreadStep-Accounted (ThreadStep.executor_leaves s e) h = record {
  turns = ground arith;
  only_last = ground arith;
}
ThreadStep-Accounted (ThreadStep.executor_posts_leave s e) h = record {
  turns = ground arith;
  only_last = ground arith;
}
ThreadStep-Accounted (ThreadStep.publisher_wakes s n e p) h = record {
  turns = ground arith;
  only_last = ground arith;
}
ThreadStep-Accounted (ThreadStep.publisher_checks s e) h = record {
  turns = ground arith;
  only_last = ground arith;
}
ThreadStep-Accounted (ThreadStep.publisher_reads s e) h = record {
  turns = ground arith;
  only_last = ground arith;
}
ThreadStep-Accounted (ThreadStep.publisher_writes s x y score e) h = record {
  turns = ground arith;
  only_last = ground arith;
}
ThreadStep-Accounted (ThreadStep.publisher_confirms s e) h = record {
  turns = ground arith;
  only_last = ground arith;
}

Step-Accounted : {s t : PacmanProcess} → Step s t → Accounted s → Accounted t
Step-Accounted (Step.thread t) h = ThreadStep-Accounted t h
Step-Accounted (Step.turn_given s) h = record { turns = ground arith; only_last = ground arith }
Step-Accounted (Step.turn_confirmed s n e) h = record {
  turns = ground arith;
  only_last = ground arith;
}
Step-Accounted (Step.others_write s shared m) h = record {
  turns = ground arith;
  only_last = ground arith;
}
Step-Accounted (Step.reader_breaks s e) h = record {
  turns = ground arith;
  only_last = ground arith;
}
Step-Accounted (Step.executor_fails s e) h = record {
  turns = ground arith;
  only_last = ground arith;
}
Step-Accounted (Step.reader_cannot_mark s e) h = record {
  turns = ground arith;
  only_last = ground arith;
}
Step-Accounted (Step.reader_cannot_end s e) h = record {
  turns = ground arith;
  only_last = ground arith;
}
Step-Accounted (Step.executor_cannot_wait s e) h = record {
  turns = ground arith;
  only_last = ground arith;
}
Step-Accounted (Step.executor_cannot_request s e) h = record {
  turns = ground arith;
  only_last = ground arith;
}
Step-Accounted (Step.executor_cannot_stop s e) h = record {
  turns = ground arith;
  only_last = ground arith;
}
Step-Accounted (Step.executor_cannot_post_stop s e) h = record {
  turns = ground arith;
  only_last = ground arith;
}
Step-Accounted (Step.executor_cannot_end s e) h = record {
  turns = ground arith;
  only_last = ground arith;
}
Step-Accounted (Step.executor_cannot_leave s e) h = record {
  turns = ground arith;
  only_last = ground arith;
}
Step-Accounted (Step.executor_cannot_post_leave s e) h = record {
  turns = ground arith;
  only_last = ground arith;
}
Step-Accounted (Step.publisher_fails s) h = record {
  turns = ground arith;
  only_last = ground arith;
}

reached-Accounted : {s t : PacmanProcess} → Reaches s t → Accounted s → Accounted t
reached-Accounted (Reaches.here s) h = h
reached-Accounted (Reaches.then before step) h = Step-Accounted step (reached-Accounted before h)

-- However the threads of P1 interleave and where they fail: the confirmed turns and those under way
-- (posted, with the executor, requested, with the publisher, or posted back) are together no more
-- than the turns that P0 gave, or one more if the executor's `sem_wait` for a turn has failed. So no
-- turn is confirmed twice, and only that failure confirms one that was not given.
pub process_handshake :
    (context : PacmanContext) (program : List PacmanInstruction) (s : PacmanProcess)
    → Reaches (start_process context program) s
    → s.confirmed + under_way s ≤ s.given + one_if s.wait_failed
unfolding start_process
process_handshake context program s reached =
    (reached-Accounted reached (record { turns = omega arith; only_last = omega arith })).turns
