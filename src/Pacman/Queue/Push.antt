-- ===== src/Pacman/Queue/Push.antt =====
-- What `queue_push` can come to.
use pacman_posix.Prelude.{
  ℕ, ◌+◌, ◌≡◌, refl, Bool, true, false, ◌==◌, List, [], ◌∷◌, ◌++◌, Option, none, some,
  if◌then◌else◌, arith,
}
use pacman_posix.Chain.{Chain, write_node, free_node, link_node}
use pacman_posix.Chain.Cells.{Holds, frame, has_of_none}
use pacman_posix.Chain.Append.{link_node-Holds}
use pacman_posix.Posix.{World, Status, ok, error, queue_mutex, name}
use pacman_posix.Pacman.{PacmanInstruction}
use pacman_posix.Pacman.Queue.{PacmanInstructionQueue, queue_push}

-- A node that was written and freed again leaves the list as it was.
write_free-Holds :
    {A : Type 0} (c : Chain A) (xs : List A) (p : ℕ) (x : A)
    → Holds c xs
    → c.store p ≡ none
    → Holds (free_node p (write_node p x c)) xs
unfolding write_node free_node
write_free-Holds c xs p x h unused =
    let out = has_of_none p h.linked unused in
    record {
      cells = h.cells;
      linked = frame h.linked (λ a i. ground arith);
      ends = h.ends;
      holds = h.holds;
    }

-- `queue_push` of `i` on a queue that holds `xs`: it is done; or nothing came of it; or the
-- instruction is in the queue and the call after that failed.
pub data Pushed (xs : List PacmanInstruction) (i : PacmanInstruction)
    (w : World PacmanInstructionQueue)
    : Status (Unit {0}) × World PacmanInstructionQueue → Type 0 where
  pushed :
      {r : Status (Unit {0}) × World PacmanInstructionQueue}
      → r.0 ≡ ok tt
      → Holds r.1.at.chain (xs ++ i ∷ [])
      → r.1.at.available ≡ w.at.available + 1
      → r.1.held (name queue_mutex) ≡ false
      → Pushed xs i w r
  refused :
      {r : Status (Unit {0}) × World PacmanInstructionQueue}
      → r.0 ≡ error
      → Holds r.1.at.chain xs
      → r.1.at.available ≡ w.at.available
      → Pushed xs i w r
  unannounced :
      {r : Status (Unit {0}) × World PacmanInstructionQueue}
      → r.0 ≡ error
      → Holds r.1.at.chain (xs ++ i ∷ [])
      → r.1.at.available ≡ w.at.available
      → Pushed xs i w r

put_back :
    (held : ℕ → Bool) (m : ℕ)
    → (if m == m then false else (if m == m then true else held m)) ≡ false
put_back held m = ground arith

module _ (xs : List PacmanInstruction) (i : PacmanInstruction) (p : ℕ) where
  push_by :
      (w : World PacmanInstructionQueue) (locks unlocks posts : Bool)
      → Holds w.at.chain xs
      → w.at.chain.store p ≡ none
      → w.held (name queue_mutex) ≡ false
      → w.succeeds w.calls ≡ locks
      → w.succeeds (w.calls + 1) ≡ unlocks
      → w.succeeds (w.calls + 1 + 1) ≡ posts
      → Pushed xs i w (queue_push (some p) i w)
  unfolding queue_push
  push_by w false unlocks posts h unused free l u s =
      refused (rw (free, l) refl) (rw (free, l) (write_free-Holds w.at.chain xs p i h unused))
        (rw (free, l) refl)
  push_by w true unlocks posts h unused free l u s =
      let (c, e, k) = link_node-Holds w.at.chain xs p i h unused in after c e k unlocks posts u s
    where
      after :
          (c : Chain PacmanInstruction)
          → link_node p (write_node p i w.at.chain) ≡ some c
          → Holds c (xs ++ i ∷ [])
          → (unlocks posts : Bool) → w.succeeds (w.calls + 1) ≡ unlocks
          → w.succeeds (w.calls + 1 + 1) ≡ posts
          → Pushed xs i w (queue_push (some p) i w)
      after c e k false posts u s =
          unannounced (rw (free, l, e, u) refl) (rw (free, l, e, u) k) (rw (free, l, e, u) refl)
      after c e k true false u s =
          unannounced (rw (free, l, e, u, s) refl) (rw (free, l, e, u, s) k)
            (rw (free, l, e, u, s) refl)
      after c e k true true u s =
          pushed (rw (free, l, e, u, s) refl) (rw (free, l, e, u, s) k) (rw (free, l, e, u, s) refl)
            (rw (free, l, e, u, s) (put_back w.held (name queue_mutex)))

-- Whatever `malloc` gives, NULL or an address that is not in use, and whichever calls fail,
-- `queue_push` on a queue that holds `xs` never waits for itself and never follows a dangling pointer;
-- the queue then holds `xs` with the instruction behind, or, only if it returns PACMAN_ERROR, just
-- `xs`; PACMAN_OK also means that the semaphore was posted and the mutex is free again.
pub queue_push-Pushed :
    (xs : List PacmanInstruction) (i : PacmanInstruction) (node : Option ℕ)
    (w : World PacmanInstructionQueue)
    → Holds w.at.chain xs
    → ((p : ℕ) → node ≡ some p → w.at.chain.store p ≡ none)
    → w.held (name queue_mutex) ≡ false
    → Pushed xs i w (queue_push node i w)
queue_push-Pushed xs i none w h unused free = unfold queue_push in refused refl h refl
queue_push-Pushed xs i (some p) w h unused free =
    push_by xs i p w _ _ _ h (unused p refl) free refl refl refl
