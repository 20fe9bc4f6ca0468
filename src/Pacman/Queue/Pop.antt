-- ===== src/Pacman/Queue/Pop.antt =====
-- What `queue_pop` can come to.
use pacman_posix.Prelude.{
  ◌+◌, ◌≤◌, ◌<◌, ◌≡◌, inl, inr, refl, sym, subst, Bool, true, false, ◌||◌, ◌==◌, List, [], ◌∷◌,
  Option, none, some, length, if◌then◌else◌, arith, Bool-cases,
}
use pacman_posix.Chain.Cells.{Holds}
use pacman_posix.Chain.Append.{take_first-Holds, take_first_nothing}
use pacman_posix.Posix.{
  World, Status, ok, error, stuck, queue_mutex, name, continue, critical, call, modify, ◌>>◌,
}
use pacman_posix.Scheduler.Sections.{Section, Section-outcome}
use pacman_posix.Pacman.{PacmanInstruction}
use pacman_posix.Pacman.Queue.{
  PacmanInstructionQueue, queue_pop, pop_taken, pop_none, wait_available, queue_pop_locked,
  take_available,
}

-- The thread has to wait for nothing more: there is no instruction and there will be none.
abbrev pub is_over : PacmanInstructionQueue → Bool
is_over q = q.reader_done || q.should_stop

-- `queue_pop` on a queue that holds `xs`: the first instruction; or none, as there is none; or the
-- thread waits for another one; or a call failed, before or after the first one was taken off.
pub data Popped (w : World PacmanInstructionQueue)
    : List PacmanInstruction
      → Status (Option PacmanInstruction) × World PacmanInstructionQueue
      → Type 0 where
  first :
      {i : PacmanInstruction} {xs : List PacmanInstruction}
      {r : Status (Option PacmanInstruction) × World PacmanInstructionQueue}
      → r.0 ≡ ok (some i)
      → Holds r.1.at.chain xs
      → r.1.at.available + 1 ≡ w.at.available
      → Popped w (i ∷ xs) r
  none_left :
      {r : Status (Option PacmanInstruction) × World PacmanInstructionQueue}
      → r.0 ≡ ok none
      → Holds r.1.at.chain []
      → Popped w [] r
  waits :
      {r : Status (Option PacmanInstruction) × World PacmanInstructionQueue}
      → r.0 ≡ stuck
      → w.at.available ≡ 0
      → is_over w.at ≡ false
      → Popped w [] r
  failed :
      {xs : List PacmanInstruction}
      {r : Status (Option PacmanInstruction) × World PacmanInstructionQueue}
      → r.0 ≡ error
      → Holds r.1.at.chain xs
      → Popped w xs r
  lost :
      {i : PacmanInstruction} {xs : List PacmanInstruction}
      {r : Status (Option PacmanInstruction) × World PacmanInstructionQueue}
      → r.0 ≡ error
      → Holds r.1.at.chain xs
      → Popped w (i ∷ xs) r

-- After `sem_trywait` took one, in the world `v`.
module _ (w v : World PacmanInstructionQueue) (taken_one : v.at.available + 1 ≡ w.at.available)
    (free : v.held (name queue_mutex) ≡ false) where
  pop_by :
      (xs : List PacmanInstruction) (locks unlocks : Bool)
      → Holds v.at.chain xs
      → v.succeeds v.calls ≡ locks
      → v.succeeds (v.calls + 1) ≡ unlocks
      → Popped w xs (pop_taken v)
  unfolding pop_taken queue_pop_locked
  pop_by xs false unlocks h l u = failed (rw (free, l) refl) (rw (free, l) h)
  pop_by [] true false h l u =
      let e = take_first_nothing v.at.chain h in
      failed (rw (free, l, e, u) refl) (rw (free, l, e, u) h)
  pop_by [] true true h l u =
      let e = take_first_nothing v.at.chain h in
      none_left (rw (free, l, e, u) refl) (rw (free, l, e, u) h)
  pop_by (i ∷ xs) true false h l u =
      let (c, e, k) = take_first-Holds v.at.chain i xs h in
      lost (rw (free, l, e, u) refl) (rw (free, l, e, u) k)
  pop_by (i ∷ xs) true true h l u =
      let (c, e, k) = take_first-Holds v.at.chain i xs h in
      first (rw (free, l, e, u) refl) (rw (free, l, e, u) k) (rw (free, l, e, u) taken_one)

-- Where the value was 0: the queue is empty, and the thread leaves or waits.
none_by :
    (w : World PacmanInstructionQueue) (r : Status Bool × World PacmanInstructionQueue)
    (over : Bool)
    → Holds w.at.chain []
    → w.at.available ≡ 0
    → is_over w.at ≡ over
    → Section queue_mutex (λ q. q) (is_over w.at) w r
    → Popped w [] (
        continue r.0
          (λ done.
            if done
            then (λ v. (ok none, v))
            else (λ v. continue (wait_available v).0 (λ _. pop_taken) (wait_available v).1))
          r.1)
unfolding wait_available
none_by w r true h z o (Section.done e x k) = none_left (rw (e, o) refl) (rw (e, o, x) h)
none_by w r false h z o (Section.done e x k) = waits (rw (e, o, x, z) refl) z o
none_by w r over h z o (Section.lock_failed e x k) = failed (rw e refl) (rw (e, x) h)
none_by w r over h z o (Section.unlock_failed e x k) = failed (rw e refl) (rw (e, x) h)

-- `queue_pop` by what `sem_trywait` finds.
abbrev pop_if :
    Bool
    → World PacmanInstructionQueue
    → Status (Option PacmanInstruction) × World PacmanInstructionQueue
pop_if true w = pop_none w
pop_if false w = (call >> modify take_available >> pop_taken) w

queue_pop_lem : (w : World PacmanInstructionQueue) → queue_pop w ≡ pop_if (w.at.available == 0) w
unfolding queue_pop
queue_pop_lem w = go (w.at.available == 0)
  where
    go :
        (b : Bool)
        → (if b then pop_none w else (call >> modify take_available >> pop_taken) w) ≡ pop_if b w
    go true = refl
    go false = refl

-- The world after a `sem_trywait` that took one.
abbrev after_take : World PacmanInstructionQueue → World PacmanInstructionQueue
after_take w = record w { at = take_available w.at; calls = w.calls + 1 }

module _ (w : World PacmanInstructionQueue) (xs : List PacmanInstruction) (h : Holds w.at.chain xs)
    (free : w.held (name queue_mutex) ≡ false) where
  pop_some :
      (succeeds : Bool)
      → w.succeeds w.calls ≡ succeeds
      → 0 < w.at.available
      → Popped w xs (pop_if false w)
  pop_some false c more = failed (rw c refl) (rw c h)
  pop_some true c more =
      let one : (after_take w).at.available + 1 ≡ w.at.available = omega arith in
      rw c (pop_by w (after_take w) one free xs _ _ h refl refl)

  pop_zero : w.at.available ≡ 0 → length xs ≤ w.at.available → Popped w xs (pop_if true w)
  unfolding pop_none
  pop_zero z few = go xs h (omega arith)
    where
      go :
          (ys : List PacmanInstruction)
          → Holds w.at.chain ys
          → length ys ≡ 0
          → Popped w ys (pop_if true w)
      go [] k e =
          none_by w (critical queue_mutex (λ q. q) is_over w) _ k z refl
            (Section-outcome queue_mutex (λ q. q) is_over w free)
      go (y ∷ ys) k e = absurd (omega arith)

  -- On a queue that holds `xs`, each of them announced by the semaphore, and whichever calls fail:
  -- `queue_pop` gives the first instruction and leaves the others; or gives none only if there is none;
  -- or waits only if there is none and there may be more; or returns PACMAN_ERROR.
  pub queue_pop-Popped : length xs ≤ w.at.available → Popped w xs (queue_pop w)
  queue_pop-Popped few = rw (queue_pop_lem w) (elim (Bool-cases (w.at.available == 0)) [
    | inl z ↦ subst (λ b. Popped w xs (pop_if b w)) (sym z) (pop_zero (ground arith) few)
    | inr n ↦ subst (λ b. Popped w xs (pop_if b w)) (sym n) (pop_some _ refl (ground arith))
  ])
