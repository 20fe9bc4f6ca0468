-- ===== src/Pacman/Threads/Progress.antt =====
-- Where P1 can come to rest.
use pacman_posix.Prelude.{
  ℕ, zero, suc, ◌+◌, ◌≤◌, ◌≡◌, ◌⊎◌, inl, inr, refl, Bool, true, false, List, [], ◌∷◌, arith,
}
use pacman_posix.Pacman.{PacmanInstruction, PacmanContext}
use pacman_posix.Pacman.Threads.{
  ReaderPlace, reading, announcing, marking, announcing_end, reader_ended, reader_gone,
  ExecutorPlace, awaiting_turn, checking_game, trying, found_none, awaiting_instruction, taking,
  requesting_publish, stopping, posting_stop, posting_last, executor_ended, leaving, posting_leave,
  processing, PublisherPlace, awaiting_request, checking_over, reading_local, confirming,
  publisher_ended, writing, PacmanProcess, start_process, ThreadStep, Step, Reaches,
}

abbrev one_if : Bool → ℕ
one_if true = 1
one_if false = 0

abbrev waits : ExecutorPlace → ℕ
waits awaiting_instruction = 1
waits _ = 0

-- The reader has not posted for the last time, or could not.
abbrev is_open : ReaderPlace → ℕ
is_open reader_ended = 0
is_open _ = 1

abbrev has_marked : ReaderPlace → ℕ
has_marked announcing_end = 1
has_marked reader_ended = 1
has_marked _ = 0

-- An executor that waits for an instruction will be woken, unless the reader could not say that it has
-- ended.
record Wakes (s : PacmanProcess) : Type 0 where
  woken : waits s.executor_at ≤ s.available + is_open s.reader_at
  marked : has_marked s.reader_at ≤ one_if s.reader_done

ThreadStep-Wakes : {s t : PacmanProcess} → ThreadStep s t → Wakes s → Wakes t
ThreadStep-Wakes (ThreadStep.reader_pushes s i rest e u) h = ground arith
ThreadStep-Wakes (ThreadStep.reader_announces s e) h = ground arith
ThreadStep-Wakes (ThreadStep.reader_finishes s e u) h = ground arith
ThreadStep-Wakes (ThreadStep.reader_marks s e) h = ground arith
ThreadStep-Wakes (ThreadStep.reader_ends s e) h = ground arith
ThreadStep-Wakes (ThreadStep.executor_takes_turn s n e t) h = ground arith
ThreadStep-Wakes (ThreadStep.executor_checks s e) h = ground arith
ThreadStep-Wakes (ThreadStep.executor_tries s n e a) h = ground arith
ThreadStep-Wakes (ThreadStep.executor_finds_none s e a) h = ground arith
ThreadStep-Wakes (ThreadStep.executor_looks s e) h = ground arith
ThreadStep-Wakes (ThreadStep.executor_wakes s n e a) h = ground arith
ThreadStep-Wakes (ThreadStep.executor_pops s i rest e q) h = ground arith
ThreadStep-Wakes (ThreadStep.executor_pops_none s e q) h = ground arith
ThreadStep-Wakes (ThreadStep.executor_processes s i e) h = ground arith
ThreadStep-Wakes (ThreadStep.executor_requests s e) h = ground arith
ThreadStep-Wakes (ThreadStep.executor_stops s e) h = ground arith
ThreadStep-Wakes (ThreadStep.executor_posts_stop s e) h = ground arith
ThreadStep-Wakes (ThreadStep.executor_ends s e) h = ground arith
ThreadStep-Wakes (ThreadStep.executor_leaves s e) h = ground arith
ThreadStep-Wakes (ThreadStep.executor_posts_leave s e) h = ground arith
ThreadStep-Wakes (ThreadStep.publisher_wakes s n e p) h = ground arith
ThreadStep-Wakes (ThreadStep.publisher_checks s e) h = ground arith
ThreadStep-Wakes (ThreadStep.publisher_reads s e) h = ground arith
ThreadStep-Wakes (ThreadStep.publisher_writes s x y score e) h = ground arith
ThreadStep-Wakes (ThreadStep.publisher_confirms s e) h = ground arith

Step-Wakes : {s t : PacmanProcess} → Step s t → Wakes s → Wakes t
Step-Wakes (Step.thread t) h = ThreadStep-Wakes t h
Step-Wakes (Step.turn_given s) h = ground arith
Step-Wakes (Step.turn_confirmed s n e) h = ground arith
Step-Wakes (Step.others_write s shared m) h = ground arith
Step-Wakes (Step.reader_breaks s e) h = ground arith
Step-Wakes (Step.executor_fails s e) h = ground arith
Step-Wakes (Step.reader_cannot_mark s e) h = ground arith
Step-Wakes (Step.reader_cannot_end s e) h = ground arith
Step-Wakes (Step.executor_cannot_wait s e) h = ground arith
Step-Wakes (Step.executor_cannot_request s e) h = ground arith
Step-Wakes (Step.executor_cannot_stop s e) h = ground arith
Step-Wakes (Step.executor_cannot_post_stop s e) h = ground arith
Step-Wakes (Step.executor_cannot_end s e) h = ground arith
Step-Wakes (Step.executor_cannot_leave s e) h = ground arith
Step-Wakes (Step.executor_cannot_post_leave s e) h = ground arith
Step-Wakes (Step.publisher_fails s) h = ground arith

reached-Wakes : {s t : PacmanProcess} → Reaches s t → Wakes s → Wakes t
reached-Wakes (Reaches.here s) h = h
reached-Wakes (Reaches.then before step) h = Step-Wakes step (reached-Wakes before h)

abbrev pub CanStep : PacmanProcess → Type 0
CanStep s = (t : PacmanProcess) × ThreadStep s t

abbrev pub ReaderRests : PacmanProcess → Type 0
ReaderRests s = (s.reader_at ≡ reader_ended) ⊎ (s.reader_at ≡ reader_gone)

reader_steps :
    (s : PacmanProcess) (p : ReaderPlace) (unread : List PacmanInstruction)
    → s.reader_at ≡ p
    → s.unread ≡ unread
    → CanStep s ⊎ ReaderRests s
reader_steps s reading [] e u = inl (_, ThreadStep.reader_finishes s e u)
reader_steps s reading (i ∷ rest) e u = inl (_, ThreadStep.reader_pushes s i rest e u)
reader_steps s announcing unread e u = inl (_, ThreadStep.reader_announces s e)
reader_steps s marking unread e u = inl (_, ThreadStep.reader_marks s e)
reader_steps s announcing_end unread e u = inl (_, ThreadStep.reader_ends s e)
reader_steps s reader_ended unread e u = inr (inl e)
reader_steps s reader_gone unread e u = inr (inr e)

abbrev pub ExecutorRests : PacmanProcess → Type 0
ExecutorRests s =
    ((s.executor_at ≡ awaiting_turn) × (s.pacman_turn ≡ 0)) ⊎ (s.executor_at ≡ executor_ended)

executor_takes :
    (s : PacmanProcess) (turns : ℕ)
    → s.executor_at ≡ awaiting_turn
    → s.pacman_turn ≡ turns
    → CanStep s ⊎ ExecutorRests s
executor_takes s zero e t = inr (inl (e, t))
executor_takes s (suc n) e t = inl (_, ThreadStep.executor_takes_turn s n e t)

executor_tries :
    (s : PacmanProcess) (available : ℕ)
    → s.executor_at ≡ trying
    → s.available ≡ available
    → CanStep s
executor_tries s zero e a = (_, ThreadStep.executor_finds_none s e a)
executor_tries s (suc n) e a = (_, ThreadStep.executor_tries s n e a)

executor_pops :
    (s : PacmanProcess) (queue : List PacmanInstruction)
    → s.executor_at ≡ taking
    → s.queue ≡ queue
    → CanStep s
executor_pops s [] e q = (_, ThreadStep.executor_pops_none s e q)
executor_pops s (i ∷ rest) e q = (_, ThreadStep.executor_pops s i rest e q)

-- The executor waits for an instruction, and the reader, which has left without saying so, will not
-- post any more.
abbrev pub IsStranded : PacmanProcess → Type 0
IsStranded s =
    (s.reader_at ≡ reader_gone) × (s.executor_at ≡ awaiting_instruction) × (s.available ≡ 0)

executor_woken :
    (s : PacmanProcess) (available : ℕ)
    → s.executor_at ≡ awaiting_instruction
    → ReaderRests s
    → s.available ≡ available
    → Wakes s
    → CanStep s ⊎ IsStranded s
executor_woken s (suc n) e r a h = inl (_, ThreadStep.executor_wakes s n e a)
executor_woken s zero e (inl r) a h = absurd (ground arith)
executor_woken s zero e (inr r) a h = inr (r, e, a)

waiting_steps :
    (s : PacmanProcess) → CanStep s ⊎ IsStranded s → CanStep s ⊎ ExecutorRests s ⊎ IsStranded s
waiting_steps s (inl t) = inl t
waiting_steps s (inr h) = inr (inr h)

turn_steps :
    (s : PacmanProcess) → CanStep s ⊎ ExecutorRests s → CanStep s ⊎ ExecutorRests s ⊎ IsStranded s
turn_steps s (inl t) = inl t
turn_steps s (inr h) = inr (inl h)

executor_steps :
    (s : PacmanProcess) (p : ExecutorPlace)
    → s.executor_at ≡ p
    → ReaderRests s
    → Wakes s
    → CanStep s ⊎ ExecutorRests s ⊎ IsStranded s
executor_steps s awaiting_turn e r h = turn_steps s (executor_takes s s.pacman_turn e refl)
executor_steps s checking_game e r h = inl (_, ThreadStep.executor_checks s e)
executor_steps s trying e r h = inl (executor_tries s s.available e refl)
executor_steps s found_none e r h = inl (_, ThreadStep.executor_looks s e)
executor_steps s awaiting_instruction e r h =
    waiting_steps s (executor_woken s s.available e r refl h)
executor_steps s taking e r h = inl (executor_pops s s.queue e refl)
executor_steps s requesting_publish e r h = inl (_, ThreadStep.executor_requests s e)
executor_steps s stopping e r h = inl (_, ThreadStep.executor_stops s e)
executor_steps s posting_stop e r h = inl (_, ThreadStep.executor_posts_stop s e)
executor_steps s posting_last e r h = inl (_, ThreadStep.executor_ends s e)
executor_steps s executor_ended e r h = inr (inl (inr e))
executor_steps s leaving e r h = inl (_, ThreadStep.executor_leaves s e)
executor_steps s posting_leave e r h = inl (_, ThreadStep.executor_posts_leave s e)
executor_steps s (processing i) e r h = inl (_, ThreadStep.executor_processes s i e)

abbrev pub PublisherRests : PacmanProcess → Type 0
PublisherRests s =
    ((s.publisher_at ≡ awaiting_request) × (s.publish_requested ≡ 0))
    ⊎ (s.publisher_at ≡ publisher_ended)

publisher_wakes :
    (s : PacmanProcess) (n : ℕ)
    → s.publisher_at ≡ awaiting_request
    → s.publish_requested ≡ n
    → CanStep s ⊎ PublisherRests s
publisher_wakes s zero e p = inr (inl (e, p))
publisher_wakes s (suc n) e p = inl (_, ThreadStep.publisher_wakes s n e p)

publisher_steps :
    (s : PacmanProcess) (p : PublisherPlace) → s.publisher_at ≡ p → CanStep s ⊎ PublisherRests s
publisher_steps s awaiting_request e = publisher_wakes s s.publish_requested e refl
publisher_steps s checking_over e = inl (_, ThreadStep.publisher_checks s e)
publisher_steps s reading_local e = inl (_, ThreadStep.publisher_reads s e)
publisher_steps s confirming e = inl (_, ThreadStep.publisher_confirms s e)
publisher_steps s publisher_ended e = inr (inr e)
publisher_steps s (writing x y score) e = inl (_, ThreadStep.publisher_writes s x y score e)

-- All three threads are at the end of what they can do without P0, or the executor is stranded and
-- the others are at that end.
abbrev pub Rests : PacmanProcess → Type 0
Rests s = ReaderRests s × (ExecutorRests s ⊎ IsStranded s) × PublisherRests s

progress : (s : PacmanProcess) → Wakes s → CanStep s ⊎ Rests s
progress s h = elim (reader_steps s s.reader_at s.unread refl refl) [
  | inl t ↦ inl t
  | inr r ↦ elim (executor_steps s s.executor_at refl r h) [
    | inl t ↦ inl t
    | inr e ↦ elim (publisher_steps s s.publisher_at refl) [ inl t ↦ inl t | inr p ↦ inr (r, e, p) ]
  ]
]

-- Where P1 can come to rest, whichever calls fail: in every state that it can reach, one of its
-- threads has a step in which no call fails, or all three rest: the reader has ended; the publisher
-- waits for a request that was not made, or has ended; and the executor waits for a turn that was not
-- given, or has ended, or waits for an instruction. The last happens only after a call of
-- `queue_mark_reader_done` has failed, when the semaphore that the executor waits for is 0.
pub process_progress :
    (context : PacmanContext) (program : List PacmanInstruction) (s : PacmanProcess)
    → Reaches (start_process context program) s
    → CanStep s ⊎ Rests s
unfolding start_process
process_progress context program s reached =
    progress s (reached-Wakes reached (record { woken = omega arith; marked = omega arith }))
