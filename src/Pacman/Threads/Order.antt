-- ===== src/Pacman/Threads/Order.antt =====
-- No instruction is lost or overtaken between the file and the executor, and Pac-Man goes where the
-- instructions that were carried out lead.
use pacman_posix.Prelude.{
  ◌≡◌, ◌⊎◌, inl, inr, refl, sym, ap, ◌∙◌, subst, Bool, true, false, ◌||◌, List, [], ◌∷◌, ◌++◌,
  if◌then◌else◌,
}
use pacman_posix.Prelude.Int.{ℤ}
use mathlib.Core.List.{append_assoc}
use pacman_posix.Shared.{SharedState}
use pacman_posix.Pacman.{PacmanInstruction, PacmanContext}
use pacman_posix.Pacman.Threads.{
  ExecutorPlace, awaiting_turn, checking_game, trying, found_none, awaiting_instruction, taking,
  requesting_publish, stopping, posting_stop, posting_last, executor_ended, leaving, posting_leave,
  processing, PacmanProcess, start_process, SameMap, publish, ThreadStep, Step, Reaches,
}
use pacman_posix.Pacman.Threads.Leads.{Leads, carry_out-Leads, carry_out-SameMap}

-- The instruction in hand, if any, is the last one taken.
abbrev pub HasAll : List PacmanInstruction → List PacmanInstruction → Type 0
HasAll processed taken =
    (processed ≡ taken) ⊎ ((i : PacmanInstruction) × (processed ++ i ∷ [] ≡ taken))

abbrev Settled : ExecutorPlace → List PacmanInstruction → List PacmanInstruction → Type 0
Settled (processing i) processed taken = processed ++ i ∷ [] ≡ taken
Settled stopping processed taken = HasAll processed taken
Settled posting_stop processed taken = HasAll processed taken
Settled posting_last processed taken = HasAll processed taken
Settled executor_ended processed taken = HasAll processed taken
Settled _ processed taken = processed ≡ taken

settled-HasAll :
    (p : ExecutorPlace) (processed taken : List PacmanInstruction)
    → Settled p processed taken
    → HasAll processed taken
settled-HasAll awaiting_turn processed taken h = inl h
settled-HasAll checking_game processed taken h = inl h
settled-HasAll trying processed taken h = inl h
settled-HasAll found_none processed taken h = inl h
settled-HasAll awaiting_instruction processed taken h = inl h
settled-HasAll taking processed taken h = inl h
settled-HasAll requesting_publish processed taken h = inl h
settled-HasAll leaving processed taken h = inl h
settled-HasAll posting_leave processed taken h = inl h
settled-HasAll (processing i) processed taken h = inr (i, h)
settled-HasAll stopping processed taken h = h
settled-HasAll posting_stop processed taken h = h
settled-HasAll posting_last processed taken h = h
settled-HasAll executor_ended processed taken h = h

checked_settled :
    (over : Bool) (processed taken : List PacmanInstruction)
    → processed ≡ taken
    → Settled (if over then stopping else trying) processed taken
checked_settled true processed taken h = inl h
checked_settled false processed taken h = h

looked_settled :
    (over : Bool) (processed taken : List PacmanInstruction)
    → processed ≡ taken
    → Settled (if over then requesting_publish else awaiting_instruction) processed taken
looked_settled true processed taken h = h
looked_settled false processed taken h = h

pushed_same :
    (done queue rest unread : List PacmanInstruction) (i : PacmanInstruction)
    {program : List PacmanInstruction}
    → unread ≡ i ∷ rest
    → done ++ (queue ++ unread) ≡ program
    → done ++ ((queue ++ i ∷ []) ++ rest) ≡ program
pushed_same done queue rest unread i e h =
    ap (λ l. done ++ l) (append_assoc queue (i ∷ []) rest ∙ ap (λ l. queue ++ l) (sym e)) ∙ h

popped_same :
    (done queue rest unread : List PacmanInstruction) (i : PacmanInstruction)
    {program : List PacmanInstruction}
    → queue ≡ i ∷ rest
    → done ++ (queue ++ unread) ≡ program
    → (done ++ i ∷ []) ++ (rest ++ unread) ≡ program
popped_same done queue rest unread i e h =
    append_assoc done (i ∷ []) (rest ++ unread) ∙ ap (λ l. done ++ (l ++ unread)) (sym e) ∙ h

SameMap-then : (s t u : SharedState) → SameMap s t → SameMap t u → SameMap s u
SameMap-then s t u (rows, cols, grid) (rows_next, cols_next, grid_next) =
    (rows_next ∙ rows, cols_next ∙ cols, grid_next ∙ grid)

-- From (x, y) on the board of `start`, with the instructions of `program`.
module _ (start : SharedState) (x y : ℤ) (program : List PacmanInstruction) where
  abbrev InOrder : PacmanProcess → Type 0
  InOrder s =
      (s.taken ++ (s.queue ++ s.unread) ≡ program)
      × Settled s.executor_at s.processed s.taken
      × Leads start x y s.processed s.context.x s.context.y
      × SameMap start s.context.shared

  place :
      (s : PacmanProcess) {p : ExecutorPlace}
      → s.executor_at ≡ p
      → InOrder s
      → Settled p s.processed s.taken
  place s e h = subst (λ p. Settled p s.processed s.taken) e h.1

  ThreadStep-InOrder : {s t : PacmanProcess} → ThreadStep s t → InOrder s → InOrder t
  unfolding publish
  ThreadStep-InOrder (ThreadStep.reader_pushes s i rest e u) h =
      (pushed_same s.taken s.queue rest s.unread i u h.0, h.1, h.2, h.3)
  ThreadStep-InOrder (ThreadStep.reader_announces s e) h = h
  ThreadStep-InOrder (ThreadStep.reader_finishes s e u) h = h
  ThreadStep-InOrder (ThreadStep.reader_marks s e) h = h
  ThreadStep-InOrder (ThreadStep.reader_ends s e) h = h
  ThreadStep-InOrder (ThreadStep.executor_takes_turn s n e t) h = (h.0, place s e h, h.2, h.3)
  ThreadStep-InOrder (ThreadStep.executor_checks s e) h =
      (h.0, checked_settled _ _ _ (place s e h), h.2, h.3)
  ThreadStep-InOrder (ThreadStep.executor_tries s n e a) h = (h.0, place s e h, h.2, h.3)
  ThreadStep-InOrder (ThreadStep.executor_finds_none s e a) h = (h.0, place s e h, h.2, h.3)
  ThreadStep-InOrder (ThreadStep.executor_looks s e) h =
      (h.0, looked_settled (s.reader_done || s.should_stop) _ _ (place s e h), h.2, h.3)
  ThreadStep-InOrder (ThreadStep.executor_wakes s n e a) h = (h.0, place s e h, h.2, h.3)
  ThreadStep-InOrder (ThreadStep.executor_pops s i rest e q) h = (
    popped_same s.taken s.queue rest s.unread i q h.0,
    ap (λ l. l ++ i ∷ []) (place s e h),
    h.2,
    h.3,
  )
  ThreadStep-InOrder (ThreadStep.executor_pops_none s e q) h = (h.0, place s e h, h.2, h.3)
  ThreadStep-InOrder (ThreadStep.executor_processes s i e) h = (
    h.0,
    place s e h,
    carry_out-Leads start x y s.processed i s.context h.3 h.2,
    carry_out-SameMap start i s.context h.3,
  )
  ThreadStep-InOrder (ThreadStep.executor_requests s e) h = (h.0, place s e h, h.2, h.3)
  ThreadStep-InOrder (ThreadStep.executor_stops s e) h = (h.0, place s e h, h.2, h.3)
  ThreadStep-InOrder (ThreadStep.executor_posts_stop s e) h = (h.0, place s e h, h.2, h.3)
  ThreadStep-InOrder (ThreadStep.executor_ends s e) h = (h.0, place s e h, h.2, h.3)
  ThreadStep-InOrder (ThreadStep.executor_leaves s e) h = (h.0, place s e h, h.2, h.3)
  ThreadStep-InOrder (ThreadStep.executor_posts_leave s e) h = (h.0, inl (place s e h), h.2, h.3)
  ThreadStep-InOrder (ThreadStep.publisher_wakes s n e p) h = h
  ThreadStep-InOrder (ThreadStep.publisher_checks s e) h = h
  ThreadStep-InOrder (ThreadStep.publisher_reads s e) h = h
  ThreadStep-InOrder (ThreadStep.publisher_writes s a b score e) h = h
  ThreadStep-InOrder (ThreadStep.publisher_confirms s e) h = h

  Step-InOrder : {s t : PacmanProcess} → Step s t → InOrder s → InOrder t
  Step-InOrder (Step.thread t) h = ThreadStep-InOrder t h
  Step-InOrder (Step.turn_given s) h = h
  Step-InOrder (Step.turn_confirmed s n e) h = h
  Step-InOrder (Step.others_write s shared m) h =
      (h.0, h.1, h.2, SameMap-then start s.context.shared shared h.3 m)
  Step-InOrder (Step.reader_breaks s e) h = h
  Step-InOrder (Step.reader_cannot_mark s e) h = h
  Step-InOrder (Step.reader_cannot_end s e) h = h
  Step-InOrder (Step.publisher_fails s) h = h
  Step-InOrder (Step.executor_cannot_wait s e) h = (h.0, inl (place s e h), h.2, h.3)
  Step-InOrder (Step.executor_fails s e) h =
      (h.0, settled-HasAll s.executor_at s.processed s.taken h.1, h.2, h.3)
  Step-InOrder (Step.executor_cannot_request s e) h = (h.0, place s e h, h.2, h.3)
  Step-InOrder (Step.executor_cannot_stop s e) h = (h.0, place s e h, h.2, h.3)
  Step-InOrder (Step.executor_cannot_post_stop s e) h = (h.0, place s e h, h.2, h.3)
  Step-InOrder (Step.executor_cannot_end s e) h = (h.0, place s e h, h.2, h.3)
  Step-InOrder (Step.executor_cannot_leave s e) h = (h.0, inl (place s e h), h.2, h.3)
  Step-InOrder (Step.executor_cannot_post_leave s e) h = (h.0, inl (place s e h), h.2, h.3)

  reached-InOrder : {s t : PacmanProcess} → Reaches s t → InOrder s → InOrder t
  reached-InOrder (Reaches.here s) h = h
  reached-InOrder (Reaches.then before step) h = Step-InOrder step (reached-InOrder before h)

-- However the threads of P1 interleave with each other and with P0's turns, and where they fail, as
-- long as nobody changes the map: the instructions that the executor has taken, those in the queue and
-- those that are not in it yet are, in this order, the instructions of the file; those carried out are
-- the ones taken, or all of them but the last; and Pac-Man stands where the moves among those carried
-- out lead from its start, one after the other, each to the next cell if that is open.
pub process_order :
    (context : PacmanContext) (program : List PacmanInstruction) (s : PacmanProcess)
    → Reaches (start_process context program) s
    → (s.taken ++ (s.queue ++ s.unread) ≡ program)
      × HasAll s.processed s.taken
      × Leads context.shared context.x context.y s.processed s.context.x s.context.y
unfolding start_process
process_order context program s reached =
    let (all, settled, leads, same) =
      reached-InOrder context.shared context.x context.y program reached
        (refl, refl, Leads.nowhere, (refl, refl, refl)) in
    (all, settled-HasAll s.executor_at s.processed s.taken settled, leads)
