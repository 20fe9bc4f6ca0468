-- ===== src/Pacman/Threads/Tests.antt =====
-- A game of P1 with one instruction, after its first turn was confirmed.
use pacman_posix.Prelude.{◌+◌, ◌≡◌, ◌≤◌, ◌⊎◌, refl, List, [], ◌∷◌, ◌++◌}
use pacman_posix.Prelude.Int.{pos}
use pacman_posix.Shared.{zeroed}
use pacman_posix.Pacman.{PacmanContext, PacmanInstruction, move, blank_instruction}
use pacman_posix.Pacman.Threads.{PacmanProcess, start_process, carry_out, ThreadStep, Step, Reaches}
use pacman_posix.Pacman.Threads.Order.{HasAll, process_order}
use pacman_posix.Pacman.Threads.Leads.{Leads}
use pacman_posix.Pacman.Threads.Handshake.{one_if, under_way, process_handshake}
use pacman_posix.Pacman.Threads.Progress.{CanStep, IsStranded, Rests, process_progress}

abbrev context : PacmanContext
context = record { shared = zeroed; x = pos 1; y = pos 1; score = pos 0 }

abbrev program : List PacmanInstruction
program = blank_instruction [] ∷ []

abbrev next : {s t u : PacmanProcess} → Reaches s t → ThreadStep t u → Reaches s u
next before step = Reaches.then before (Step.thread step)

abbrev Reached : Type 0
Reached = (s : PacmanProcess) × Reaches (start_process context program) s × (s.confirmed ≡ 1)

after_turn_one : Reached
unfolding start_process carry_out move
after_turn_one =
    let a =
      next (Reaches.here (start_process context program))
        (ThreadStep.reader_pushes _ (blank_instruction []) [] refl refl) in
    let b = next a (ThreadStep.reader_announces _ refl) in
    let c = Reaches.then b (Step.turn_given _) in
    let d = next c (ThreadStep.executor_takes_turn _ 0 refl refl) in
    let e = next d (ThreadStep.executor_checks _ refl) in
    let f = next e (ThreadStep.executor_tries _ 0 refl refl) in
    let g = next f (ThreadStep.executor_pops _ (blank_instruction []) [] refl refl) in
    let h = next g (ThreadStep.executor_processes _ (blank_instruction []) refl) in
    let i = next h (ThreadStep.executor_requests _ refl) in
    let j = next i (ThreadStep.publisher_wakes _ 0 refl refl) in
    let k = next j (ThreadStep.publisher_checks _ refl) in
    let l = next k (ThreadStep.publisher_reads _ refl) in
    let m = next l (ThreadStep.publisher_writes _ _ _ _ refl) in
    let n = next m (ThreadStep.publisher_confirms _ refl) in
    (_, Reaches.then n (Step.turn_confirmed _ 0 refl), refl)

-- A lock that fails in `queue_mark_reader_done` leaves an executor that has a turn without an end.
stranded : (s : PacmanProcess) × Reaches (start_process context []) s × IsStranded s
unfolding start_process
stranded =
    let a =
      next (Reaches.here (start_process context [])) (ThreadStep.reader_finishes _ refl refl) in
    let b = Reaches.then a (Step.reader_cannot_mark _ refl) in
    let c = Reaches.then b (Step.turn_given _) in
    let d = next c (ThreadStep.executor_takes_turn _ 0 refl refl) in
    let e = next d (ThreadStep.executor_checks _ refl) in
    let f = next e (ThreadStep.executor_finds_none _ refl refl) in
    (_, next f (ThreadStep.executor_looks _ refl), (refl, refl, refl))

-- A `sem_wait` that fails in the executor leads to a confirmation before any turn was given.
confirmed_unasked :
    (s : PacmanProcess) × Reaches (start_process context []) s × (s.given ≡ 0) × (s.confirmed ≡ 1)
unfolding start_process
confirmed_unasked =
    let a =
      Reaches.then (Reaches.here (start_process context [])) (Step.executor_cannot_wait _ refl) in
    let b = next a (ThreadStep.executor_stops _ refl) in
    let c = next b (ThreadStep.executor_posts_stop _ refl) in
    let d = next c (ThreadStep.executor_ends _ refl) in
    let e = next d (ThreadStep.publisher_wakes _ 0 refl refl) in
    let f = next e (ThreadStep.publisher_checks _ refl) in
    let g = next f (ThreadStep.publisher_reads _ refl) in
    let h = next g (ThreadStep.publisher_writes _ _ _ _ refl) in
    let i = next h (ThreadStep.publisher_confirms _ refl) in
    (_, Reaches.then i (Step.turn_confirmed _ 0 refl), refl, refl)

process_order_example :
    (after_turn_one.0.taken ++ (after_turn_one.0.queue ++ after_turn_one.0.unread) ≡ program)
    × HasAll after_turn_one.0.processed after_turn_one.0.taken
    × Leads context.shared context.x context.y after_turn_one.0.processed after_turn_one.0.context.x
        after_turn_one.0.context.y
process_order_example = process_order context program after_turn_one.0 after_turn_one.1

process_handshake_example :
    after_turn_one.0.confirmed + under_way after_turn_one.0
    ≤ after_turn_one.0.given + one_if after_turn_one.0.wait_failed
process_handshake_example = process_handshake context program after_turn_one.0 after_turn_one.1

process_progress_example : CanStep after_turn_one.0 ⊎ Rests after_turn_one.0
process_progress_example = process_progress context program after_turn_one.0 after_turn_one.1
