-- ===== src/Chain/Tests.antt =====
-- A chain in a store whose `malloc` reuses the lowest of three addresses.
use pacman_posix.Prelude.{
  ℕ, ◌≡◌, refl, Bool, true, false, List, [], ◌∷◌, Option, none, some, if◌then◌else◌, arith,
}
use pacman_posix.Chain.{
  Store, empty_chain, write_node, link_node, take_first, take_node, link_at, link_after, take_at,
}
use pacman_posix.Chain.Fifo.{Operation, Event, Fifo, perform, perform-Fifo}

abbrev is_free : {A : Type 0} → Option A → Bool
is_free none = true
is_free (some x) = false

abbrev three : Store ℕ → Option ℕ
three s =
    if is_free (s 0)
    then some 0
    else if is_free (s 1)
    then some 1
    else if is_free (s 2)
    then some 2
    else none

three_unused : (s : Store ℕ) (p : ℕ) → three s ≡ some p → s p ≡ none
three_unused s p e = ground arith

abbrev operations : List (Operation ℕ)
operations =
    Operation.put 5
    ∷ Operation.put 6
    ∷ Operation.get
    ∷ Operation.put 7
    ∷ Operation.put 8
    ∷ Operation.put 9
    ∷ Operation.get
    ∷ Operation.get
    ∷ Operation.get
    ∷ Operation.get
    ∷ []

run :
    perform three operations (empty_chain (λ p. none))
    ≡ some (
        Event.added 5
        ∷ Event.added 6
        ∷ Event.got 5
        ∷ Event.added 7
        ∷ Event.added 8
        ∷ Event.refused 9
        ∷ Event.got 6
        ∷ Event.got 7
        ∷ Event.got 8
        ∷ Event.was_empty
        ∷ [])
unfolding perform write_node link_node link_at link_after take_first take_at take_node
run = refl

perform-Fifo_example :
    (es : List (Event ℕ)) × (perform three operations (empty_chain (λ p. none)) ≡ some es)
    × Fifo ℕ [] es
perform-Fifo_example = perform-Fifo three three_unused operations (λ p. none)
