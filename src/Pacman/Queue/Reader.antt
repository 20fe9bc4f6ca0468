-- ===== src/Pacman/Queue/Reader.antt =====
-- What the reading thread of P1 puts into the queue.
use pacman_posix.Prelude.{
  ℕ, ◌+◌, ◌≡◌, refl, sym, ap, subst, inl, inr, false, List, [], ◌∷◌, ◌++◌, Option, none, some,
  Option-cases,
}
use mathlib.Core.List.{append-nil, append_assoc}
use pacman_posix.Text.{Bytes}
use pacman_posix.Chain.{Store}
use pacman_posix.Chain.Cells.{Holds}
use pacman_posix.Posix.{World, Status, ok, queue_mutex, name}
use pacman_posix.Pacman.{PacmanInstruction}
use pacman_posix.Pacman.Queue.{
  PacmanInstructionQueue, queue_push, line_instruction, read_moves, or_break,
}
use pacman_posix.Pacman.Queue.Push.{Pushed, queue_push-Pushed}

abbrev keep : Option PacmanInstruction → List PacmanInstruction → List PacmanInstruction
keep none is = is
keep (some i) is = i ∷ is

-- The instructions in the lines of a file: lines that hold none are left out.
unfoldable pub instructions_of : List Bytes → List PacmanInstruction
instructions_of [] = []
instructions_of (buffer ∷ rest) = keep (line_instruction buffer) (instructions_of rest)

-- From a queue that held `xs`, the first instructions of `all` have been added, in order.
pub record Added (xs all : List PacmanInstruction)
    (r : Status (Unit {0}) × World PacmanInstructionQueue) : Type 0 where
  pub goes_on : r.0 ≡ ok tt
  pub added : List PacmanInstruction
  pub left : List PacmanInstruction
  pub splits : all ≡ added ++ left
  pub holds : Holds r.1.at.chain (xs ++ added)

stops :
    (xs added all : List PacmanInstruction) (r : Status (Unit {0}) × World PacmanInstructionQueue)
    (left : List PacmanInstruction)
    → r.0 ≡ ok tt
    → all ≡ added ++ left
    → Holds r.1.at.chain (xs ++ added)
    → Added xs all r
stops xs added all r left e s h = record {
  goes_on = e;
  added = added;
  left = left;
  splits = s;
  holds = h;
}

module _ (malloc : ℕ → Store PacmanInstruction → Option ℕ)
    (unused : (k : ℕ) (s : Store PacmanInstruction) (p : ℕ)
      → malloc k s ≡ some p
      → s p ≡ none) where
  Loop :
      (World PacmanInstructionQueue → Status (Unit {0}) × World PacmanInstructionQueue)
      → List PacmanInstruction
      → Type 0
  Loop m all =
      (xs : List PacmanInstruction) (w : World PacmanInstructionQueue)
      → Holds w.at.chain xs
      → w.held (name queue_mutex) ≡ false
      → Added xs all (m w)

  after_push :
      (xs all : List PacmanInstruction) (i : PacmanInstruction) (w : World PacmanInstructionQueue)
      (next : World PacmanInstructionQueue → Status (Unit {0}) × World PacmanInstructionQueue)
      (r : Status (Unit {0}) × World PacmanInstructionQueue)
      → Pushed xs i w r
      → Loop next all
      → Added xs (i ∷ all) (or_break r next)
  unfolding Loop
  after_push xs all i w next r (Pushed.pushed e h a f) ih =
      let p = ih (xs ++ i ∷ []) r.1 h f in
      rw e (
        stops xs (i ∷ p.added) (i ∷ all) (next r.1) p.left p.goes_on (ap (◌∷◌ i) p.splits)
          (subst (Holds (next r.1).1.at.chain) (append_assoc xs (i ∷ []) p.added) p.holds))
  after_push xs all i w next r (Pushed.refused e h a) ih = rw e (
      stops xs [] (i ∷ all) (ok tt, r.1) (i ∷ all) refl refl
        (subst (Holds r.1.at.chain) (sym (append-nil xs)) h))
  after_push xs all i w next r (Pushed.unannounced e h a) ih =
      rw e (stops xs (i ∷ []) (i ∷ all) (ok tt, r.1) all refl refl h)

  read_moves-Loop :
      (k : ℕ) (lines : List Bytes) → Loop (read_moves malloc k lines) (instructions_of lines)
  unfolding Loop read_moves instructions_of
  read_moves-Loop k [] xs w h free =
      stops xs [] [] (ok tt, w) [] refl refl (subst (Holds w.at.chain) (sym (append-nil xs)) h)
  read_moves-Loop k (buffer ∷ rest) xs w h free = elim (Option-cases (line_instruction buffer)) [
    | inl e ↦ rw e (read_moves-Loop (k + 1) rest xs w h free)
    | inr (i, e) ↦ rw e (
        after_push xs (instructions_of rest) i w (read_moves malloc (k + 1) rest)
          (queue_push (malloc k w.at.chain.store) i w)
          (queue_push-Pushed xs i (malloc k w.at.chain.store) w h (unused k w.at.chain.store) free)
          (read_moves-Loop (k + 1) rest))
  ]

  -- Whatever `malloc` gives and whichever calls fail, the reading loop on a queue that holds `xs` ends
  -- without waiting, and the queue then holds `xs` and behind it the first instructions of the lines, in
  -- order: none is skipped before the last one that was added.
  pub read_moves-Added :
      (k : ℕ) (lines : List Bytes) (xs : List PacmanInstruction) (w : World PacmanInstructionQueue)
      → Holds w.at.chain xs
      → w.held (name queue_mutex) ≡ false
      → Added xs (instructions_of lines) (read_moves malloc k lines w)
  read_moves-Added = unfold Loop in read_moves-Loop
